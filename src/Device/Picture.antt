-- ===== src/Device/Picture.antt =====
-- `take_picture` of `CameraDevice`, and `_to_jpg`, which converts the frame.
use grpc_cplugplug_example.Base.{
  ℕ, ◌+◌, ◌-◌, ◌/◌, ◌%◌, ◌^◌, ◌&&◌, min, Option, none, some, List, [], ◌∷◌, ltb, leb, ◌==◌,
  if◌then◌else◌, Result, ok, fault, state_assertion, bad_access, zero_division, ◌>>=◌,
}
use grpc_cplugplug_example.Base.Int.{ℤ, pos, negsuc, nonzero, eq_ℤ, to_uint32}
use grpc_cplugplug_example.Buffer
use grpc_cplugplug_example.Buffer.{Buff}
use grpc_cplugplug_example.Buffer.Memory.{memcpy}
use grpc_cplugplug_example.Sdk.{FrameInfo, SaveParam, Env, Sys, get_sys_time_ms}
use grpc_cplugplug_example.Camera
use grpc_cplugplug_example.Camera.{Camera}
use grpc_cplugplug_example.Device.{Device, Times, stop_and_close}

-- `ImageParameter` of src/camera_service.h.
pub record ImageParameter : Type 0 where
  pub image_type : ℕ
  pub width : ℕ
  pub height : ℕ
  pub quality : ℕ
  pub method : ℕ

-- The five values that `_to_jpg` settles on before it calls the SDK. With a parameter each of them is
-- taken over within its limits.
unfoldable pub choose : Device → FrameInfo → Option ImageParameter → ImageParameter
choose d frame none = record {
  image_type = d.default_image_type;
  width = frame.width;
  height = frame.height;
  quality = d.default_quality;
  method = d.default_method;
}
choose d frame (some p) = record {
  image_type =
      if leb 1 p.image_type && leb p.image_type 4 then p.image_type else d.default_image_type;
  width = if ltb 0 p.width then min frame.width p.width else frame.width;
  height = if ltb 0 p.height then min frame.height p.height else frame.height;
  quality = if leb 50 p.quality && ltb p.quality 100 then p.quality else d.default_quality;
  method = if leb 0 p.method && leb p.method 3 then p.method else d.default_method;
}

-- `msipe`
unfoldable pub save_param : ImageParameter → FrameInfo → List ℕ → Buff → SaveParam
save_param chosen frame pixels b = record {
  pixels = pixels;
  data_len = frame.frame_len;
  pixel_type = frame.pixel_type;
  width = chosen.width;
  height = chosen.height;
  buffer_size = to_uint32 (Buffer.get_buff_size b);
  image_type = chosen.image_type;
  quality = chosen.quality;
  method = chosen.method;
}

-- The `uint64_t` sums behind a piece of work that ran from `t1` to `t2`.
unfoldable pub record_time : Times → ℕ → ℕ → Result Times
record_time t t1 t2 =
    let last = (t2 + 2 ^ 64 - t1) % 2 ^ 64 in
    let count = (t.count + 1) % 2 ^ 64 in
    let total = (t.total + last) % 2 ^ 64 in
    if count == 0
    then fault zero_division
    else ok (record { last = last; total = total; count = count; avg = total / count })

-- What the SDK writes from the start of a buffer on.
unfoldable pub fill : Buff → List ℕ → Result Buff
fill b [] = ok b
fill b (x ∷ xs) = elim b.buff [
  | none ↦ fault bad_access
  | some m ↦ memcpy m 0 (x ∷ xs) >>= λ m'. ok (record b { buff = some m' })
]

module _ (env : Env) where
  -- `if (default_buff_size_ > 0) …ensure_size(default_buff_size_)`, whose result is not looked at.
  unfoldable pub prepare : Device → Buff → Sys env.World → Result Buff
  prepare d b s =
      if ltb 0 d.default_buff_size
      then (Buffer.ensure_size (env.malloc s.world) b d.default_buff_size >>= λ r. ok r.1)
      else ok b

  -- The result, the object, the buffer of the caller and the system.
  abbrev pub Shot : Type 0
  Shot = ℤ × Device × Buff × Sys env.World

  -- `_to_jpg` behind the call of `SaveImage`.
  unfoldable pub converted : Device → ℤ → ℕ → Buff → ℕ → Sys env.World → Result Shot
  converted d ret image_len b t1 s = do
    let t2 = get_sys_time_ms env s
    times ← record_time d.conv_image t1 t2.0
    b' ← if eq_ℤ ret (pos 0) then (Buffer.set_data_size b image_len >>= λ r. ok r.1) else ok b
    ok (ret, record d { conv_image = times }, b', t2.1)

  -- `_to_jpg`
  unfoldable pub to_jpg :
      Device
      → Camera
      → List ℕ
      → FrameInfo
      → Option ImageParameter
      → Buff
      → Sys env.World
      → Result Shot
  to_jpg d c pixels frame param target s = do
    b ← prepare d target s
    let t1 = get_sys_time_ms env s
    let r = Camera.save env (save_param (choose d frame param) frame pixels b) c t1.1
    written ← fill b r.0.2
    converted d r.0.0 r.0.1 written t1.0 r.1

  -- `take_picture` without a frame: MV_E_NODATA is taken for a device that is gone.
  unfoldable pub no_frame : Device → ℤ → Buff → Sys env.World → Result Shot
  no_frame d ret target s =
      if eq_ℤ ret env.mv_e_nodata
      then (stop_and_close env d s >>= λ r. ok (ret, r.1, target, r.2))
      else ok (ret, d, target, s)

  -- `take_picture` behind the call of `GetOneFrameTimeout`.
  unfoldable pub framed :
      Device
      → Camera
      → ℤ
      → FrameInfo
      → ℕ
      → Option ImageParameter
      → Buff
      → Sys env.World
      → Result Shot
  framed d c ret frame t1 param target s = do
    let t2 = get_sys_time_ms env s
    times ← record_time d.take_times t1 t2.0
    let d' = record d { take_times = times }
    if nonzero ret
        then no_frame d' ret target t2.1
        else to_jpg d' c (Buffer.bytes (Buffer.get_buff d'.cache_data)) frame param target t2.1

  -- `take_picture` of a camera that is connected.
  unfoldable pub take_connected :
      Device → Camera → Option ImageParameter → Buff → Sys env.World → Result Shot
  take_connected d c param target s = do
    let t1 = get_sys_time_ms env s
    cache ← prepare d d.cache_data t1.1
    let r = Camera.one_frame env (to_uint32 (Buffer.get_buff_size cache)) d.wait_timeout c t1.1
    filled ← fill cache r.0.2
    framed (record d { cache_data = filled }) c r.0.0 r.0.1 t1.0 param target r.1

  unfoldable pub take_with :
      Device → Camera → Option ImageParameter → Buff → Sys env.World → Result Shot
  take_with d c param target s =
      let r = Camera.is_connected env c s in
      if r.0
      then take_connected d c param target r.1
      else (stop_and_close env d r.1 >>= λ q. ok (negsuc 0, q.1, target, q.2))

  -- The three assertions, on the camera of the device.
  unfoldable pub take_asserted :
      Device → Option Camera → Option ImageParameter → Buff → Sys env.World → Result Shot
  take_asserted d none param target s = fault state_assertion
  take_asserted d (some c) param target s =
      if d.camera_open && d.grapping then take_with d c param target s else fault state_assertion

  unfoldable pub take_picture : Device → Option ImageParameter → Buff → Sys env.World → Result Shot
  unfolding take_asserted
  take_picture d param target s = take_asserted d d.camera param target s
