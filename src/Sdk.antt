-- ===== src/Sdk.antt =====
-- The camera SDK, the clock and the allocator, which the program calls and does not implement. They
-- are the parameter `env` of the model; what the program relies on is the record `Sdk.Laws.Laws`.
pub mod Laws
pub mod Sample
use Prim.Native.String.{String}
use grpc_cplugplug_example.Base.{ℕ, zero, suc, Bool, Option, List, [], ◌∷◌}
use grpc_cplugplug_example.Base.Int.{ℤ}

-- `void*`; 0 is NULL. Other pointers that the program only passes on are numbers too.
abbrev pub Handle : Type 0
Handle = ℕ

abbrev pub Pointer : Type 0
Pointer = ℕ

-- The two readings of the union `SpecialInfo`, with the fields that the program reads.
pub record GigeInfo : Type 0 where
  pub current_ip : ℕ
  pub user_defined_name : List ℕ
  pub serial_number : List ℕ
  pub model_name : List ℕ
  pub device_version : List ℕ
  pub manufacturer_name : List ℕ

pub record UsbInfo : Type 0 where
  pub user_defined_name : List ℕ
  pub serial_number : List ℕ
  pub model_name : List ℕ
  pub device_version : List ℕ
  pub manufacturer_name : List ℕ
  pub device_guid : List ℕ

pub record DeviceInfo : Type 0 where
  pub layer_type : ℕ
  pub gige : GigeInfo
  pub usb : UsbInfo

pub record FrameInfo : Type 0 where
  pub width : ℕ
  pub height : ℕ
  pub frame_len : ℕ
  pub pixel_type : ℕ

pub record SaveParam : Type 0 where
  pub pixels : List ℕ
  pub data_len : ℕ
  pub pixel_type : ℕ
  pub width : ℕ
  pub height : ℕ
  pub buffer_size : ℕ
  pub image_type : ℕ
  pub quality : ℕ
  pub method : ℕ

-- The calls that are made with a handle, with their other arguments.
pub data Request : Type 0 where
  open_device close_device destroy_handle is_device_connected : Request
  start_grabbing stop_grabbing : Request
  register_image_callback : Pointer → Pointer → Request
  get_image_buffer : Pointer → ℤ → Request
  free_image_buffer display_one_frame : Pointer → Request
  set_image_node_num : ℕ → Request
  get_device_info : Request
  get_all_match_info : ℕ → Pointer → Request
  get_int_value : String → Request
  set_int_value : String → ℤ → Request
  get_enum_value : String → Pointer → Request
  set_enum_value : String → ℕ → Request
  set_enum_value_by_string : String → String → Request
  get_enum_entry_symbolic get_float_value : String → Pointer → Request
  set_float_value : String → Pointer → Request
  get_bool_value : String → Pointer → Request
  set_bool_value : String → Bool → Request
  get_string_value : String → Pointer → Request
  set_string_value : String → String → Request
  set_command_value : String → Request
  get_optimal_packet_size : Request
  register_exception_callback : Pointer → Pointer → Request
  register_event_callback : String → Pointer → Pointer → Request
  force_ip : ℕ → ℕ → ℕ → Request
  set_ip_config set_net_trans_mode : ℕ → Request
  convert_pixel_type save_image_to_file draw_circle draw_lines : Pointer → Request
  save_image : SaveParam → Request
  get_one_frame : ℕ → ℕ → Request

-- The value of a call, with what it writes through its pointers where the program reads that: a
-- parameter's present value, a frame with its bytes, the length of an image with its bytes.
abbrev pub Reply : Request → Type 0
Reply is_device_connected = Bool
Reply get_device_info = ℤ × DeviceInfo
Reply (get_int_value key) = ℤ × ℤ
Reply (save_image p) = ℤ × ℕ × List ℕ
Reply (get_one_frame size msec) = ℤ × FrameInfo × List ℕ
Reply _ = ℤ

pub record Env : Type 1 where
  pub World : Type 0
  pub mv_ok : ℤ
  pub mv_e_parameter : ℤ
  pub mv_e_callorder : ℤ
  pub mv_e_handle : ℤ
  pub mv_e_support : ℤ
  pub mv_e_usb_write : ℤ
  pub mv_e_nodata : ℤ
  pub mv_gige_device : ℕ
  pub mv_usb_device : ℕ
  pub mv_match_type_net_detect : ℕ
  pub mv_match_type_usb_detect : ℕ
  pub mv_trigger_mode_off : ℕ
  pub pixel_type_bgr8_packed : ℕ
  pub mv_image_jpeg : ℕ
  pub initialize : World → ℤ × World
  pub finalize : World → ℤ × World
  pub get_sdk_version : World → ℤ
  -- The list that the call fills in, `none` for a NULL entry, is the second part.
  pub enum_devices : ℕ → World → ℤ × List (Option DeviceInfo) × World
  pub is_device_accessible : DeviceInfo → ℕ → World → Bool
  -- The handle before the call and after it.
  pub create_handle : Handle → DeviceInfo → World → ℤ × Handle × World
  pub call : (r : Request) → Handle → World → Reply r × World
  pub now : World → ℕ × World
  pub sleep : ℕ → World → World
  pub malloc : World → ℕ → Option (List ℕ)

-- What the program has asked of the SDK, newest first.
pub data Note : Type 0 where
  created : Handle → Note
  requested : Request → Handle → Note
  slept : ℕ → Note

pub record Sys (W : Type 0) : Type 0 where
  pub world : W
  pub trace : List Note

module _ (env : Env) where
  -- A call with a handle.
  abbrev pub request : (r : Request) → Handle → Sys env.World → Reply r × Sys env.World
  request r h s =
      let a = env.call r h s.world in (a.0, record { world = a.1; trace = requested r h ∷ s.trace })

  -- A call that takes no handle, or one that only tells the time, leaves no note.
  abbrev pub get_sys_time_ms : Sys env.World → ℕ × Sys env.World
  get_sys_time_ms s = let a = env.now s.world in (a.0, record s { world = a.1 })

  -- `local_sleep`
  abbrev pub local_sleep : ℕ → Sys env.World → Sys env.World
  local_sleep zero s = s
  local_sleep (suc ms) s = record {
    world = env.sleep (suc ms) s.world;
    trace = slept (suc ms) ∷ s.trace;
  }
