-- ===== src/Provider.antt =====
-- `CameraServiceProvider` of src/camera_service.cc: the devices that were found, and the cameras that
-- are open, by serial number. The map is the one lasting owner of a device, so the model keeps the
-- device itself in the map and writes it back after each call.
pub mod Map
pub mod Names
pub mod Metas
pub mod Address
pub mod Cameras
pub mod Lookup
pub mod Shared
mod Tests
use Prim.Native.Nat.{bit_or}
use grpc_cplugplug_example.Base.{
  ℕ, Bool, true, false, ◌&&◌, ◌||◌, Option, none, some, List, [], ◌∷◌, ◌==◌, if◌then◌else◌, Result,
  ok, fault, ◌>>=◌,
}
use grpc_cplugplug_example.Base.Int.{ℤ, pos, negsuc, nonzero, eq_ℤ}
use grpc_cplugplug_example.Buffer.{Buff}
use grpc_cplugplug_example.Text.{c_str, to_upper, local_stricmp}
use grpc_cplugplug_example.Sdk.{DeviceInfo, Env, Sys}
use grpc_cplugplug_example.Camera.Forward.{enum_devices}
use grpc_cplugplug_example.Device
use grpc_cplugplug_example.Device.{Device}
use grpc_cplugplug_example.Device.Picture
use grpc_cplugplug_example.Device.Picture.{ImageParameter}
use Map.{lookup, insert, erase}

pub record Provider : Type 0 where
  pub camera_info_list : List (Option DeviceInfo)
  pub cameras_list : List (List ℕ × Device)

unfoldable pub init : Provider
init = record { camera_info_list = []; cameras_list = [] }

module _ (env : Env) where
  -- Whether a device of a known type has the serial number.
  unfoldable pub has_serial : List ℕ → DeviceInfo → Bool
  has_serial sn info =
      if info.layer_type == env.mv_gige_device
      then eq_ℤ (local_stricmp (c_str info.gige.serial_number) sn) (pos 0)
      else if info.layer_type == env.mv_usb_device
      then eq_ℤ (local_stricmp (c_str info.usb.serial_number) sn) (pos 0)
      else false

  -- The loop of `find_camera_info_by_sn`.
  unfoldable pub find_info : List (Option DeviceInfo) → List ℕ → Option DeviceInfo
  unfolding has_serial
  find_info [] sn = none
  find_info (none ∷ l) sn = find_info l sn
  find_info (some info ∷ l) sn = if has_serial sn info then some info else find_info l sn

  unfoldable pub find_camera_info_by_sn : Provider → List ℕ → Option DeviceInfo
  find_camera_info_by_sn p sn = find_info p.camera_info_list (c_str sn)

  -- `~CameraDevice`
  unfoldable pub destroy_device : Device → Sys env.World → Result (Sys env.World)
  destroy_device d s = Device.stop_and_close env d s >>= λ r. ok r.2

  -- What `find_camera_device_by_sn` does with an entry of the map.
  unfoldable pub found :
      Provider
      → List ℕ
      → Option Device
      → Sys env.World
      → Result (Option Device × Provider × Sys env.World)
  unfolding destroy_device
  found p sn none s = ok (none, p, s)
  found p sn (some d) s =
      if Device.is_shutdown d
      then (destroy_device d s >>= λ s'.
          ok (none, record p { cameras_list = erase sn p.cameras_list }, s'))
      else ok (some d, p, s)

  unfoldable pub find_camera_device_by_sn :
      Provider → List ℕ → Sys env.World → Result (Option Device × Provider × Sys env.World)
  find_camera_device_by_sn p sn s = found p sn (lookup sn p.cameras_list) s

  -- `cameras_list_[sn] = a`: an entry that is replaced loses its last owner.
  unfoldable pub replaced : Option Device → Sys env.World → Result (Sys env.World)
  unfolding destroy_device
  replaced none s = ok s
  replaced (some d) s = destroy_device d s

  unfoldable pub add_camera_device :
      Provider → List ℕ → Device → Sys env.World → Result (Provider × Sys env.World)
  add_camera_device p sn d s = replaced (lookup sn p.cameras_list) s >>= λ s'.
      ok (record p { cameras_list = insert sn d p.cameras_list }, s')

  -- A device that was started, or failed to: then it is destroyed.
  unfoldable pub started :
      Provider
      → List ℕ
      → ℤ × Device × Sys env.World
      → Result (Option Device × Provider × Sys env.World)
  unfolding destroy_device
  started p sn r =
      if nonzero r.0
      then (destroy_device r.1 r.2 >>= λ s'. ok (none, p, s'))
      else (add_camera_device p sn r.1 r.2 >>= λ q. ok (some r.1, q.0, q.1))

  unfoldable pub create_device :
      Provider
      → List ℕ
      → Option DeviceInfo
      → Sys env.World
      → Result (Option Device × Provider × Sys env.World)
  create_device p sn none s = ok (none, p, s)
  create_device p sn (some info) s =
      Device.start env (Device.init env) info s >>= λ r. started p sn r

  -- The rest of `find_or_create_camera_device`, behind the look into the map.
  unfoldable pub or_create :
      List ℕ
      → Option Device × Provider × Sys env.World
      → Result (Option Device × Provider × Sys env.World)
  or_create sn (some d, p, s) = ok (some d, p, s)
  or_create sn (none, p, s) = create_device p sn (find_camera_info_by_sn p sn) s

  unfoldable pub find_or_create_camera_device :
      Provider → List ℕ → Sys env.World → Result (Option Device × Provider × Sys env.World)
  find_or_create_camera_device p sn1 s =
      let sn = to_upper sn1 in find_camera_device_by_sn p sn s >>= λ r. or_create sn r

  unfoldable pub close_found :
      List ℕ → Option Device × Provider × Sys env.World → Result (Provider × Sys env.World)
  close_found sn (none, p, s) = ok (p, s)
  close_found sn (some d, p, s) = Device.stop_and_close env d s >>= λ r.
      ok (record p { cameras_list = insert sn r.1 p.cameras_list }, r.2)

  -- `close_camera`, whose argument is a C string.
  unfoldable pub close_camera :
      Provider → List ℕ → Sys env.World → Result (Provider × Sys env.World)
  close_camera p sn s = find_camera_device_by_sn p (c_str sn) s >>= λ r. close_found (c_str sn) r

  unfoldable pub enum_all_cameras_info : Provider → Sys env.World → ℤ × Provider × Sys env.World
  enum_all_cameras_info p s =
      let r = enum_devices env (bit_or env.mv_gige_device env.mv_usb_device) s in
      (r.0, record p { camera_info_list = r.1 }, r.2)

  -- The result, the provider, the buffer of the caller and the system.
  abbrev pub Shot : Type 0
  Shot = ℤ × Provider × Buff × Sys env.World

  -- `take_picture` behind `find_or_create_camera_device`.
  unfoldable pub take_found :
      List ℕ → Option ImageParameter → Buff → Option Device × Provider × Sys env.World → Result Shot
  take_found sn param b (none, p, s) = ok (negsuc 0, p, b, s)
  take_found sn param b (some d, p, s) = Picture.take_picture env d param b s >>= λ r.
      ok (r.0, record p { cameras_list = insert sn r.1 p.cameras_list }, r.2, r.3)

  unfoldable pub take_picture :
      Provider → List ℕ → Option ImageParameter → Buff → Sys env.World → Result Shot
  take_picture p sn param b s =
      find_or_create_camera_device p sn s >>= λ r. take_found (to_upper sn) param b r
