-- ===== src/Grpc/Locks.antt =====
-- The mutexes of src/camera_service.cc, inside of the turns of Grpc.Threads: what each method does
-- between two locks is a step of its own here, and the threads wait for each other at a mutex. A
-- method is a `Code`, written as its body is: a `std::lock_guard` is an `acquire` at its place and a
-- `release` at the end of its scope.
pub mod Calls
pub mod Alone
pub mod Held
pub mod Mutexes
pub mod Workers
pub mod Order
pub mod OnTime
pub mod Progress
pub mod Deadlock
pub mod Fair
pub mod Finish
pub mod Writes
pub mod Guards
pub mod Holds
pub mod Exclusion
mod Tests
use Prim.Native.Nat.{bit_or}
use grpc_cplugplug_example.Base.{
  ℕ, zero, suc, ◌++◌, Option, none, some, List, [], ◌∷◌, map, get_elem?, set, Bool, true, false,
  not, ◌&&◌, ◌||◌, ◌==◌, ◌-◌, if◌then◌else◌, Result, ok, fault, bad_access, ◌>>=◌, or_fault,
}
use grpc_cplugplug_example.Base.Int.{ℤ, nonzero}
use grpc_cplugplug_example.Buffer.{Buff}
use grpc_cplugplug_example.Text.{c_str, to_upper}
use grpc_cplugplug_example.Sdk.{DeviceInfo, Env, Sys}
use grpc_cplugplug_example.Camera.Forward.{enum_devices}
use grpc_cplugplug_example.Device
use grpc_cplugplug_example.Device.{Device}
use grpc_cplugplug_example.Device.Picture
use grpc_cplugplug_example.Provider.{destroy_device, find_info}
use grpc_cplugplug_example.Provider.Map.{lookup, insert, erase}
use grpc_cplugplug_example.Provider.Metas.{to_camera_meta_info_list}
use grpc_cplugplug_example.Provider.Shared.{Object, Objects, at, make_shared, share}
use grpc_cplugplug_example.Grpc.{add_messages, content_of, image_buffer}
use grpc_cplugplug_example.Grpc.Serving.{Call, camera_metas, reset_all, image}
use grpc_cplugplug_example.Grpc.Threads.{
  Stage, idle, listing, looking, missing, opening, adding, holding, dropping, Answer, metas,
  picture, reset_done, Shared,
}

-- The two mutexes of the provider, that of the device which is the object `i`, and that of the device
-- which the thread `k` is just making.
pub data Mutex : Type 0 where
  camera_info_list_lock cameras_list_lock : Mutex
  device_lock new_device_lock : ℕ → Mutex

abbrev pub same_mutex : Mutex → Mutex → Bool
same_mutex camera_info_list_lock camera_info_list_lock = true
same_mutex cameras_list_lock cameras_list_lock = true
same_mutex (device_lock i) (device_lock j) = i == j
same_mutex (new_device_lock i) (new_device_lock j) = i == j
same_mutex _ _ = false

module _ (env : Env) where
  -- What is left of a turn: its end, with the stage it leads to and the answers given; a lock; an
  -- unlock; or a change of the shared state, whose value the rest depends on.
  pub data Code : Type 1 where
    leave : Stage → List Answer → Code
    acquire release : Mutex → Code → Code
    effect : (A : Type 0) → (Shared env → Result (A × Shared env)) → (A → Code) → Code

  -- The code without other threads, for which no mutex is ever taken.
  unfoldable pub exec : Code → Shared env → Result (Stage × Shared env × List Answer)
  exec (leave stage answers) sh = ok (stage, sh, answers)
  exec (acquire m c) sh = exec c sh
  exec (release m c) sh = exec c sh
  exec (effect A f c) sh = f sh >>= λ r. exec (c r.0) r.1

  -- The object that a pointer points to must be alive.
  unfoldable pub object : ℕ → Shared env → Result Object
  object i sh = or_fault (at sh.objects i) bad_access

  unfoldable pub read_shutdown : ℕ → Shared env → Result (Bool × Shared env)
  unfolding object
  read_shutdown i sh = object i sh >>= λ o. ok (Device.is_shutdown o.device, sh)

  -- `is_shutdown`
  unfoldable pub is_shutdown : ℕ → (Bool → Code) → Code
  is_shutdown i k =
      acquire (device_lock i)
        (effect Bool (read_shutdown i) (λ gone. release (device_lock i) (k gone)))

  -- One owner less; whether it was the last.
  unfoldable pub drop_owner : ℕ → Shared env → Result (Bool × Shared env)
  unfolding object
  drop_owner i sh = object i sh >>= λ o. ok (
    o.owners == 1,
    record sh { objects = set sh.objects i (some (record o { owners = o.owners - 1 })) },
  )

  unfoldable pub destroy : ℕ → Shared env → Result (Unit {0} × Shared env)
  unfolding object
  destroy i sh = object i sh >>= λ o. destroy_device env o.device sh.sys >>= λ s'.
      ok (tt, record sh { objects = set sh.objects i none; sys = s' })

  -- `~CameraDevice`, which calls `stop_and_close`, behind the end of the last pointer.
  unfoldable pub destroy_last : ℕ → Code → Bool → Code
  destroy_last i k true =
      acquire (device_lock i) (effect Unit (destroy i) (λ u. release (device_lock i) k))
  destroy_last i k false = k

  -- The end of a `shared_ptr`.
  unfoldable pub drop_pointer : ℕ → Code → Code
  unfolding destroy_last
  drop_pointer i k = effect Bool (drop_owner i) (destroy_last i k)

  unfoldable pub find_key : List ℕ → Shared env → Result (Option ℕ × Shared env)
  find_key sn sh = ok (lookup sn sh.cameras_list, sh)

  unfoldable pub erase_key : List ℕ → Shared env → Result (Unit {0} × Shared env)
  erase_key sn sh = ok (tt, record sh { cameras_list = erase sn sh.cameras_list })

  unfoldable pub share_pointer : ℕ → Shared env → Result (Unit {0} × Shared env)
  share_pointer i sh = share sh.objects i >>= λ os. ok (tt, record sh { objects = os })

  -- `find_camera_device_by_sn`, for an entry of the map, shut down or not.
  unfoldable pub found_entry : List ℕ → (Option ℕ → Code) → ℕ → Bool → Code
  unfolding drop_pointer
  found_entry sn k i true =
      effect Unit (erase_key sn) (λ u. drop_pointer i (release cameras_list_lock (k none)))
  found_entry sn k i false =
      effect Unit (share_pointer i) (λ u. release cameras_list_lock (k (some i)))

  unfoldable pub found_device : List ℕ → (Option ℕ → Code) → ℕ → Code
  unfolding is_shutdown found_entry
  found_device sn k i = is_shutdown i (found_entry sn k i)

  unfoldable pub found_key : List ℕ → (Option ℕ → Code) → Option ℕ → Code
  unfolding found_device
  found_key sn k none = release cameras_list_lock (k none)
  found_key sn k (some i) = found_device sn k i

  -- `find_camera_device_by_sn`, which goes on with the pointer that it returns.
  unfoldable pub find_camera_device_by_sn : List ℕ → (Option ℕ → Code) → Code
  unfolding found_key
  find_camera_device_by_sn sn k =
      acquire cameras_list_lock (effect (Option ℕ) (find_key sn) (found_key sn k))

  unfoldable pub read_info : List ℕ → Shared env → Result (Option DeviceInfo × Shared env)
  read_info sn sh = ok (find_info env sh.camera_info_list (c_str sn), sh)

  -- `find_camera_info_by_sn`
  unfoldable pub find_camera_info_by_sn : List ℕ → (Option DeviceInfo → Code) → Code
  find_camera_info_by_sn sn k =
      acquire camera_info_list_lock
        (effect (Option DeviceInfo) (read_info sn) (λ o. release camera_info_list_lock (k o)))
