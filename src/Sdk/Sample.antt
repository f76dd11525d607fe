-- ===== src/Sdk/Sample.antt =====
-- An SDK with one camera, which does what it is asked for, and the time as its only state.
use grpc_cplugplug_example.Base.{
  ℕ, suc, ◌+◌, ◌≤◌, refl, none, some, List, [], ◌∷◌, length, replicate, leb, true, if◌then◌else◌,
  arith, Bool-cases, inl, inr,
}
use grpc_cplugplug_example.Base.Int.{ℤ, pos, negsuc}
use grpc_cplugplug_example.Sdk.{
  GigeInfo, UsbInfo, DeviceInfo, FrameInfo, Request, Reply, Env, Sys, is_device_connected,
  get_device_info, get_int_value, save_image, get_one_frame,
}
use grpc_cplugplug_example.Sdk.Laws.{Laws}

abbrev pub gige_info : GigeInfo
gige_info = record {
  current_ip = 3232235777;
  user_defined_name = b'l' ∷ b'e' ∷ b'f' ∷ b't' ∷ [];
  serial_number = b'k' ∷ b'1' ∷ b'2' ∷ [];
  model_name = b'M' ∷ [];
  device_version = b'1' ∷ [];
  manufacturer_name = b'H' ∷ [];
}

abbrev pub usb_info : UsbInfo
usb_info = record {
  user_defined_name = [];
  serial_number = b'U' ∷ b'7' ∷ [];
  model_name = b'M' ∷ [];
  device_version = b'1' ∷ [];
  manufacturer_name = b'H' ∷ [];
  device_guid = b'G' ∷ [];
}

abbrev pub gige_device : DeviceInfo
gige_device = record { layer_type = 1; gige = gige_info; usb = usb_info }

abbrev pub usb_device : DeviceInfo
usb_device = record { layer_type = 4; gige = gige_info; usb = usb_info }

abbrev pub small_frame : FrameInfo
small_frame = record { width = 2; height = 2; frame_len = 4; pixel_type = 17 }

abbrev save_reply : ℕ → ℤ × ℕ × List ℕ
save_reply size = if leb 3 size then (pos 0, 3, 9 ∷ 8 ∷ 7 ∷ []) else (negsuc 0, 0, [])

abbrev frame_reply : ℕ → ℤ × FrameInfo × List ℕ
frame_reply size =
    if leb 4 size then (pos 0, small_frame, 1 ∷ 2 ∷ 3 ∷ 4 ∷ []) else (negsuc 0, small_frame, [])

abbrev answer : (r : Request) → Reply r
answer is_device_connected = true
answer get_device_info = (pos 0, gige_device)
answer (get_int_value key) = (pos 0, pos 4)
answer (save_image p) = save_reply p.buffer_size
answer (get_one_frame size msec) = frame_reply size
answer _ = pos 0

abbrev pub one_camera : Env
one_camera = record {
  World = ℕ;
  mv_ok = pos 0;
  mv_e_parameter = negsuc 1;
  mv_e_callorder = negsuc 2;
  mv_e_handle = negsuc 3;
  mv_e_support = negsuc 4;
  mv_e_usb_write = negsuc 5;
  mv_e_nodata = negsuc 6;
  mv_gige_device = 1;
  mv_usb_device = 4;
  mv_match_type_net_detect = 1;
  mv_match_type_usb_detect = 2;
  mv_trigger_mode_off = 0;
  pixel_type_bgr8_packed = 35127317;
  mv_image_jpeg = 2;
  initialize = λ w. (pos 0, w);
  finalize = λ w. (pos 0, w);
  get_sdk_version = λ w. pos 3;
  enum_devices = λ t w. (pos 0, none ∷ some gige_device ∷ some usb_device ∷ [], w);
  is_device_accessible = λ d m w. true;
  create_handle = λ h d w. (pos 0, suc w, suc w);
  call = λ r h w. (answer r, suc w);
  now = λ w. (w, suc w);
  sleep = λ n w. w + n;
  malloc = λ w n. some (replicate n 0);
}

frame_reply_fits : (size : ℕ) → length (frame_reply size).2 ≤ size
frame_reply_fits size = elim (Bool-cases (leb 4 size)) [
  | inl large ↦ rw large (ground (arith, large))
  | inr small ↦ rw small (omega arith)
]

save_reply_fits : (size : ℕ) → (length (save_reply size).2 ≤ size) × ((save_reply size).1 ≤ size)
save_reply_fits size = elim (Bool-cases (leb 3 size)) [
  | inl large ↦ rw large (ground (arith, large), ground (arith, large))
  | inr small ↦ rw small (omega arith, omega arith)
]

pub one_camera-Laws : Laws one_camera
one_camera-Laws = record {
  ok_is_zero = refl;
  created_handle = λ h i w e. λ z. absurd (omega (arith, z));
  refused_handle = λ h i w f. absurd (f refl);
  frame_fits = λ size msec h w. frame_reply_fits size;
  image_fits = λ p h w. save_reply_fits p.buffer_size;
}

-- The moment at which everything starts.
abbrev pub at_start : Sys ℕ
at_start = record { world = 0; trace = [] }
