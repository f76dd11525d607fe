-- ===== src/Device.antt =====
-- `CameraDevice` of src/camera_service.cc: its state, and the operations that open and close it. Each
-- public method holds the lock of the object from its first line to its last, so it is one step.
pub mod Picture
pub mod States
pub mod Starting
pub mod Stopping
pub mod Converting
pub mod Taking
pub mod Clamp
mod Tests
use Prim.Native.String.{String}
use grpc_cplugplug_example.Base.{
  ℕ, zero, suc, ◌^◌, Bool, true, false, not, ◌&&◌, ◌||◌, Option, none, some, ◌==◌, if◌then◌else◌,
  Result, ok, fault, bad_access, ◌>>=◌,
}
use grpc_cplugplug_example.Base.Int.{ℤ, pos, negsuc, nonzero, eq_ℤ, to_uint32}
use grpc_cplugplug_example.Buffer
use grpc_cplugplug_example.Buffer.{Buff}
use grpc_cplugplug_example.Sdk.{DeviceInfo, Env, Sys, local_sleep}
use grpc_cplugplug_example.Camera
use grpc_cplugplug_example.Camera.{Camera}

-- The times of one kind of work, in milliseconds; the mean is the quotient of the two sums, before
-- it is converted to a `float`.
pub record Times : Type 0 where
  pub last : ℕ
  pub total : ℕ
  pub count : ℕ
  pub avg : ℕ

-- `camera` is `none` where the pointer is NULL.
pub record Device : Type 0 where
  pub camera : Option Camera
  pub camera_open : Bool
  pub grapping : Bool
  pub default_buff_size : ℕ
  pub cache_data : Buff
  pub conv_image : Times
  pub take_times : Times
  pub wait_timeout : ℕ
  pub default_image_type : ℕ
  pub default_quality : ℕ
  pub default_method : ℕ

unfoldable pub no_times : Times
no_times = record { last = 0; total = 0; count = 0; avg = 0 }

unfoldable pub is_shutdown : Device → Bool
is_shutdown d = elim d.camera [ none ↦ true | some c ↦ false ]

module _ (env : Env) where
  unfoldable pub init : Device
  unfolding no_times Buffer.init
  init = record {
    camera = none;
    camera_open = false;
    grapping = false;
    default_buff_size = 0;
    cache_data = Buffer.init;
    conv_image = no_times;
    take_times = no_times;
    wait_timeout = 4000;
    default_image_type = env.mv_image_jpeg;
    default_quality = 99;
    default_method = 3;
  }

  -- What a method returns, with the object and the system behind it.
  abbrev pub Out : Type 0
  Out = ℤ × Device × Sys env.World

  unfoldable pub start_with : Device → Camera → Sys env.World → Out
  start_with d c s =
      let r = Camera.start_grab env c s in
      if nonzero r.0 then (r.0, d, r.1) else (pos 0, record d { grapping = true }, r.1)

  -- `_start_grapping`
  unfoldable pub start_grapping : Device → Sys env.World → Result Out
  start_grapping d s =
      if d.grapping
      then ok (pos 0, d, s)
      else elim d.camera [ none ↦ fault bad_access | some c ↦ ok (start_with d c s) ]

  -- The calls of `_stop_grapping`: after a failure other than MV_E_USB_WRITE the label is gone back to,
  -- at most as often as the number says.
  unfoldable pub stop_retry : ℕ → Camera → Sys env.World → ℤ × Sys env.World
  stop_retry zero c s = Camera.stop_grab env c s
  stop_retry (suc left) c s =
      let r = Camera.stop_grab env c s in
      let rest = stop_retry left c (local_sleep env 100 r.1) in
      if nonzero r.0 && not (eq_ℤ r.0 env.mv_e_usb_write) then rest else r

  unfoldable pub stop_with : Device → Camera → Sys env.World → Out
  stop_with d c s = let r = stop_retry 5 c s in (r.0, record d { grapping = false }, r.1)

  -- `_stop_grapping`
  unfoldable pub stop_grapping : Device → Sys env.World → Result Out
  stop_grapping d s =
      if d.grapping
      then elim d.camera [ none ↦ fault bad_access | some c ↦ ok (stop_with d c s) ]
      else ok (pos 0, d, s)

  -- `Close` and then `delete`, which runs the destructor.
  unfoldable pub close_and_delete : Camera → Sys env.World → Sys env.World
  close_and_delete c s = let r = Camera.close env c s in Camera.destroy env r.1 r.2

  -- `_close_camera`
  unfoldable pub close_camera : Device → Sys env.World → Out
  close_camera d s = elim d.camera [
    | none ↦ (pos 0, record d { camera_open = false }, s)
    | some c ↦ (pos 0, record d { camera = none; camera_open = false }, close_and_delete c s)
  ]

  -- `_stop_and_close`
  unfoldable pub stop_and_close : Device → Sys env.World → Result Out
  stop_and_close d s =
      stop_grapping d s >>= λ r. let q = close_camera r.1 r.2 in ok (pos 0, q.1, q.2)

  -- `_init_cam_params`, with the object's camera; only the size that it may set is given back.
  unfoldable pub init_cam_params : ℕ → Camera → Sys env.World → ℤ × ℕ × Sys env.World
  init_cam_params old_size c s =
      let r1 = Camera.set_enum env "TriggerMode" env.mv_trigger_mode_off c s in
      let r2 = Camera.set_enum env "PixelFormat" env.pixel_type_bgr8_packed c r1.1 in
      let r3 = Camera.get_int env "PayloadSize" c r2.1 in
      (r3.0.0, if eq_ℤ r3.0.0 (pos 0) then to_uint32 r3.0.1 else old_size, r3.1)

  -- The packet size of a GigE camera. What fails here is only logged.
  unfoldable pub set_packet_size : DeviceInfo → Camera → Sys env.World → Sys env.World
  set_packet_size info c s =
      let r = Camera.packet_size env (some 0) c s in
      let q =
        Camera.set_int env "GevSCPSPacketSize" (pos (elim r.1 [ none ↦ 0 | some n ↦ n ])) c r.2 in
      if info.layer_type == env.mv_gige_device then if eq_ℤ r.0 env.mv_ok then q.1 else r.2 else s

  -- `_open_camera` from the call of `Open` on, with the new `CMvCamera` behind that call.
  unfoldable pub opened : Device → DeviceInfo → ℤ → Camera → Sys env.World → Out
  opened d info ret c s =
      let s' = set_packet_size info c s in
      let r = init_cam_params d.default_buff_size c s' in
      if not (eq_ℤ env.mv_ok ret)
      then (ret, record d { camera = none }, Camera.destroy env c s)
      else (pos 0, record d { camera = some c; default_buff_size = r.1; camera_open = true }, r.2)

  -- `_open_camera`
  unfoldable pub open_camera : Device → DeviceInfo → Sys env.World → Out
  open_camera d info s =
      let r = Camera.open_camera env Camera.init (some info) s in
      let fresh = opened d info r.0 r.1 r.2 in
      if d.camera_open
      then (pos 0, d, s)
      else elim d.camera [ some c ↦ (pos 0, d, s) | none ↦ fresh ]

  -- The end of `start`, behind `_open_camera`.
  unfoldable pub start_opened : Out → Result Out
  start_opened r =
      if nonzero r.0
      then (let q = close_camera r.1 r.2 in ok (r.0, q.1, q.2))
      else start_grapping r.1 r.2

  unfoldable pub start : Device → DeviceInfo → Sys env.World → Result Out
  start d info s = start_opened (open_camera d info s)
