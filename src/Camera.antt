-- ===== src/Camera.antt =====
-- `CMvCamera` of src/MvCamera.cc: one handle of the SDK, and the calls that are made with it. The
-- operations that the camera service uses are here, the others in `Forward`.
pub mod Forward
pub mod Handles
mod Tests
use Prim.Native.String.{String}
use grpc_cplugplug_example.Base.{
  ℕ, ◌≡◌, Bool, not, Option, none, some, List, ◌∷◌, ◌==◌, if◌then◌else◌,
}
use grpc_cplugplug_example.Base.Int.{ℤ, pos, eq_ℤ, ltb_ℤ, to_uint32}
use grpc_cplugplug_example.Sdk.{
  Handle, DeviceInfo, FrameInfo, SaveParam, Request, open_device, close_device, destroy_handle,
  is_device_connected, start_grabbing, stop_grabbing, get_int_value, set_int_value, set_enum_value,
  get_optimal_packet_size, save_image, get_one_frame, Reply, Env, created, Sys, request,
}

pub record Camera : Type 0 where
  pub handle : Handle

unfoldable pub init : Camera
init = record { handle = 0 }

module _ (env : Env) where
  unfoldable pub destroy : Camera → Sys env.World → Sys env.World
  destroy c s = if c.handle == 0 then s else (request env destroy_handle c.handle s).1

  -- `MV_CC_CreateHandle(&m_hDevHandle, …)`; only a handle that is created is noted.
  unfoldable pub create : Camera → DeviceInfo → Sys env.World → ℤ × Camera × Sys env.World
  create c info s =
      let r = env.create_handle c.handle info s.world in
      (
        r.0,
        record { handle = r.1 },
        record {
          world = r.2;
          trace = if eq_ℤ env.mv_ok r.0 then created r.1 ∷ s.trace else s.trace;
        },
      )

  -- `MV_CC_OpenDevice` on a new handle, which is destroyed if that fails.
  unfoldable pub open_created : Camera → Sys env.World → ℤ × Camera × Sys env.World
  open_created c s =
      let r = request env open_device c.handle s in
      if eq_ℤ env.mv_ok r.0
      then (r.0, c, r.1)
      else (r.0, record { handle = 0 }, (request env destroy_handle c.handle r.1).1)

  unfoldable pub open_new : Camera → DeviceInfo → Sys env.World → ℤ × Camera × Sys env.World
  open_new c info s =
      let r = create c info s in
      if eq_ℤ env.mv_ok r.0 then open_created r.1 r.2 else (r.0, r.1, r.2)

  -- `Open`, with `none` for NULL.
  unfoldable pub open_camera :
      Camera → Option DeviceInfo → Sys env.World → ℤ × Camera × Sys env.World
  open_camera c none s = (env.mv_e_parameter, c, s)
  open_camera c (some info) s =
      if not (c.handle == 0) then (env.mv_e_callorder, c, s) else open_new c info s

  unfoldable pub close : Camera → Sys env.World → ℤ × Camera × Sys env.World
  close c s =
      if c.handle == 0
      then (env.mv_e_handle, c, s)
      else (let r = request env close_device c.handle s in
          let q = request env destroy_handle c.handle r.1 in (q.0, record { handle = 0 }, q.1))

  unfoldable pub is_connected : Camera → Sys env.World → Bool × Sys env.World
  is_connected c s = request env is_device_connected c.handle s

  unfoldable pub start_grab : Camera → Sys env.World → ℤ × Sys env.World
  start_grab c s = request env start_grabbing c.handle s

  unfoldable pub stop_grab : Camera → Sys env.World → ℤ × Sys env.World
  stop_grab c s = request env stop_grabbing c.handle s

  -- The second part is `nCurValue`.
  unfoldable pub get_int : String → Camera → Sys env.World → (ℤ × ℤ) × Sys env.World
  get_int key c s = request env (get_int_value key) c.handle s

  unfoldable pub set_int : String → ℤ → Camera → Sys env.World → ℤ × Sys env.World
  set_int key value c s = request env (set_int_value key value) c.handle s

  unfoldable pub set_enum : String → ℕ → Camera → Sys env.World → ℤ × Sys env.World
  set_enum key value c s = request env (set_enum_value key value) c.handle s

  -- `GetOptimalPacketSize`: the argument is what the pointer points to, `none` for NULL.
  unfoldable pub packet_size : Option ℕ → Camera → Sys env.World → ℤ × Option ℕ × Sys env.World
  packet_size none c s = (env.mv_e_parameter, none, s)
  packet_size (some old) c s =
      let r = request env get_optimal_packet_size c.handle s in
      if ltb_ℤ r.0 env.mv_ok then (r.0, some old, r.1) else (env.mv_ok, some (to_uint32 r.0), r.1)

  unfoldable pub save : SaveParam → Camera → Sys env.World → (ℤ × ℕ × List ℕ) × Sys env.World
  save p c s = request env (save_image p) c.handle s

  -- `GetOneFrameTimeout` into a buffer of `size` bytes.
  unfoldable pub one_frame :
      ℕ → ℕ → Camera → Sys env.World → (ℤ × FrameInfo × List ℕ) × Sys env.World
  one_frame size msec c s = request env (get_one_frame size msec) c.handle s
