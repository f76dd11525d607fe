-- ===== src/Camera/Forward.antt =====
-- The operations of `CMvCamera` that the camera service does not use: each passes the handle and its
-- arguments on to one call of the SDK. A `float` is the pattern of its bits.
use Prim.Native.String.{String}
use grpc_cplugplug_example.Base.{
  ℕ, ◌≡◌, ◌≢◌, ◌⊎◌, Bool, not, List, ◌∷◌, Option, none, some, ◌==◌, if◌then◌else◌, arith,
}
use grpc_cplugplug_example.Base.Int.{ℤ}
use grpc_cplugplug_example.Sdk.{
  Pointer, DeviceInfo, register_image_callback, get_image_buffer, free_image_buffer,
  display_one_frame, set_image_node_num, get_device_info, get_all_match_info, get_enum_value,
  set_enum_value_by_string, get_enum_entry_symbolic, get_float_value, set_float_value,
  get_bool_value, set_bool_value, get_string_value, set_string_value, set_command_value,
  register_exception_callback, register_event_callback, force_ip, set_ip_config, set_net_trans_mode,
  convert_pixel_type, save_image_to_file, draw_circle, draw_lines, Env, requested, Sys, request,
}
use grpc_cplugplug_example.Camera.{Camera}

module _ (env : Env) where
  unfoldable pub init_sdk : Sys env.World → ℤ × Sys env.World
  init_sdk s = let a = env.initialize s.world in (a.0, record s { world = a.1 })

  unfoldable pub finalize_sdk : Sys env.World → ℤ × Sys env.World
  finalize_sdk s = let a = env.finalize s.world in (a.0, record s { world = a.1 })

  unfoldable pub get_sdk_version : Sys env.World → ℤ
  get_sdk_version s = env.get_sdk_version s.world

  unfoldable pub enum_devices : ℕ → Sys env.World → ℤ × List (Option DeviceInfo) × Sys env.World
  enum_devices layers s =
      let a = env.enum_devices layers s.world in (a.0, a.1, record s { world = a.2 })

  unfoldable pub is_device_accessible : DeviceInfo → ℕ → Sys env.World → Bool
  is_device_accessible info mode s = env.is_device_accessible info mode s.world

  unfoldable pub register_callback : Pointer → Pointer → Camera → Sys env.World → ℤ × Sys env.World
  register_callback on_frame user c s =
      request env (register_image_callback on_frame user) c.handle s

  unfoldable pub get_buffer : Pointer → ℤ → Camera → Sys env.World → ℤ × Sys env.World
  get_buffer frame msec c s = request env (get_image_buffer frame msec) c.handle s

  unfoldable pub free_buffer : Pointer → Camera → Sys env.World → ℤ × Sys env.World
  free_buffer frame c s = request env (free_image_buffer frame) c.handle s

  unfoldable pub display_frame : Pointer → Camera → Sys env.World → ℤ × Sys env.World
  display_frame info c s = request env (display_one_frame info) c.handle s

  unfoldable pub set_node_num : ℕ → Camera → Sys env.World → ℤ × Sys env.World
  set_node_num num c s = request env (set_image_node_num num) c.handle s

  unfoldable pub get_enum : String → Pointer → Camera → Sys env.World → ℤ × Sys env.World
  get_enum key value c s = request env (get_enum_value key value) c.handle s

  unfoldable pub set_enum_by_string : String → String → Camera → Sys env.World → ℤ × Sys env.World
  set_enum_by_string key value c s = request env (set_enum_value_by_string key value) c.handle s

  unfoldable pub get_enum_entry : String → Pointer → Camera → Sys env.World → ℤ × Sys env.World
  get_enum_entry key entry c s = request env (get_enum_entry_symbolic key entry) c.handle s

  unfoldable pub get_float : String → Pointer → Camera → Sys env.World → ℤ × Sys env.World
  get_float key value c s = request env (get_float_value key value) c.handle s

  unfoldable pub set_float : String → ℕ → Camera → Sys env.World → ℤ × Sys env.World
  set_float key value c s = request env (set_float_value key value) c.handle s

  unfoldable pub get_bool : String → Pointer → Camera → Sys env.World → ℤ × Sys env.World
  get_bool key value c s = request env (get_bool_value key value) c.handle s

  unfoldable pub set_bool : String → Bool → Camera → Sys env.World → ℤ × Sys env.World
  set_bool key value c s = request env (set_bool_value key value) c.handle s

  unfoldable pub get_string : String → Pointer → Camera → Sys env.World → ℤ × Sys env.World
  get_string key value c s = request env (get_string_value key value) c.handle s

  unfoldable pub set_string : String → String → Camera → Sys env.World → ℤ × Sys env.World
  set_string key value c s = request env (set_string_value key value) c.handle s

  unfoldable pub command_execute : String → Camera → Sys env.World → ℤ × Sys env.World
  command_execute key c s = request env (set_command_value key) c.handle s

  unfoldable pub register_exception : Pointer → Pointer → Camera → Sys env.World → ℤ × Sys env.World
  register_exception on_exception user c s =
      request env (register_exception_callback on_exception user) c.handle s

  unfoldable pub register_event :
      String → Pointer → Pointer → Camera → Sys env.World → ℤ × Sys env.World
  register_event name on_event user c s =
      request env (register_event_callback name on_event user) c.handle s

  unfoldable pub force_ip_address : ℕ → ℕ → ℕ → Camera → Sys env.World → ℤ × Sys env.World
  force_ip_address ip mask gateway c s = request env (force_ip ip mask gateway) c.handle s

  unfoldable pub set_ip_mode : ℕ → Camera → Sys env.World → ℤ × Sys env.World
  set_ip_mode mode c s = request env (set_ip_config mode) c.handle s

  unfoldable pub set_trans_mode : ℕ → Camera → Sys env.World → ℤ × Sys env.World
  set_trans_mode mode c s = request env (set_net_trans_mode mode) c.handle s

  unfoldable pub convert_pixels : Pointer → Camera → Sys env.World → ℤ × Sys env.World
  convert_pixels param c s = request env (convert_pixel_type param) c.handle s

  unfoldable pub save_to_file : Pointer → Camera → Sys env.World → ℤ × Sys env.World
  save_to_file param c s = request env (save_image_to_file param) c.handle s

  unfoldable pub circle : Pointer → Camera → Sys env.World → ℤ × Sys env.World
  circle info c s = request env (draw_circle info) c.handle s

  unfoldable pub lines : Pointer → Camera → Sys env.World → ℤ × Sys env.World
  lines info c s = request env (draw_lines info) c.handle s

  unfoldable pub device_info : Camera → Sys env.World → (ℤ × DeviceInfo) × Sys env.World
  device_info c s = request env get_device_info c.handle s

  -- The part that `GetGevAllMatchInfo` and `GetU3VAllMatchInfo` share, for one type of device. The
  -- pointer is `none` for NULL; what `memset` clears is not read.
  unfoldable pub match_info_of : ℕ → ℕ → Option Pointer → Camera → Sys env.World → ℤ × Sys env.World
  unfolding device_info
  match_info_of layer match_type none c s = (env.mv_e_parameter, s)
  match_info_of layer match_type (some info) c s =
      let r = device_info c s in
      if not (r.0.1.layer_type == layer)
      then (env.mv_e_support, r.1)
      else request env (get_all_match_info match_type info) c.handle r.1

  unfoldable pub gev_match_info : Option Pointer → Camera → Sys env.World → ℤ × Sys env.World
  unfolding match_info_of
  gev_match_info = match_info_of env.mv_gige_device env.mv_match_type_net_detect

  unfoldable pub u3v_match_info : Option Pointer → Camera → Sys env.World → ℤ × Sys env.World
  unfolding match_info_of
  u3v_match_info = match_info_of env.mv_usb_device env.mv_match_type_usb_detect

  -- With different numbers for the two types of device, each of the two match calls asks the
  -- device for its type, and asks for the match only if the type is its own: for no device do both
  -- of them ask for it, and for a device of another type than both, both return MV_E_SUPPORT.
  pub match_info_by_type :
      (info : Pointer) (c : Camera) (s : Sys env.World)
      → env.mv_gige_device ≢ env.mv_usb_device
      → let layer = (env.call get_device_info c.handle s.world).0.1.layer_type in
        let gev = gev_match_info (some info) c s in
        let u3v = u3v_match_info (some info) c s in
        let asked = requested get_device_info c.handle ∷ s.trace in
        ((layer ≡ env.mv_gige_device)
          × (gev.1.trace
              ≡ requested (get_all_match_info env.mv_match_type_net_detect info) c.handle ∷ asked)
          × (u3v.0 ≡ env.mv_e_support)
          × (u3v.1.trace ≡ asked))
        ⊎ ((layer ≡ env.mv_usb_device)
            × (gev.0 ≡ env.mv_e_support)
            × (gev.1.trace ≡ asked)
            × (u3v.1.trace
                ≡ requested (get_all_match_info env.mv_match_type_usb_detect info) c.handle
                  ∷ asked))
        ⊎ ((layer ≢ env.mv_gige_device)
            × (layer ≢ env.mv_usb_device)
            × (gev.0 ≡ env.mv_e_support)
            × (gev.1.trace ≡ asked)
            × (u3v.0 ≡ env.mv_e_support)
            × (u3v.1.trace ≡ asked))
  unfolding gev_match_info u3v_match_info
  match_info_by_type info c s ne = ground arith
