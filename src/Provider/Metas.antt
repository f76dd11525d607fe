-- ===== src/Provider/Metas.antt =====
-- `to_camera_meta_info_list` and `enum_all_cameras`: the descriptions of the devices.
use Prim.Native.Char.{code}
use Prim.Native.String.{String}
use grpc_cplugplug_example.Base.{
  ℕ, ◌/◌, ◌%◌, ◌^◌, Option, none, some, List, [], ◌∷◌, ◌++◌, ◌==◌, if◌then◌else◌,
}
use grpc_cplugplug_example.Base.Int.{ℤ, pos, nonzero}
use grpc_cplugplug_example.Text.{c_str}
use grpc_cplugplug_example.Decimal.{decimal}
use grpc_cplugplug_example.Sdk.{DeviceInfo, GigeInfo, UsbInfo, Env, Sys}
use grpc_cplugplug_example.Provider.{Provider, enum_all_cameras_info}

-- The bytes of a literal.
abbrev pub bytes_of : String → List ℕ
bytes_of String.[] = []
bytes_of (String.◌∷◌ c s) = code c ∷ bytes_of s

-- `CameraMetaInfo` of src/camera_service.h.
pub record CameraMetaInfo : Type 0 where
  pub serial_number : List ℕ
  pub model_name : List ℕ
  pub manufacture_name : List ℕ
  pub device_version : List ℕ
  pub user_defined_name : List ℕ
  pub camera_type : List ℕ
  pub info : List (List ℕ × List ℕ)

-- The four bytes of the address and `"%d.%d.%d.%d"`.
unfoldable pub ip_addr : ℕ → List ℕ
ip_addr ip =
    decimal (ip / 2 ^ 24 % 256)
    ++ (b'.'
        ∷ (decimal (ip / 2 ^ 16 % 256)
            ++ (b'.' ∷ (decimal (ip / 2 ^ 8 % 256) ++ (b'.' ∷ decimal (ip % 256))))))

unfoldable pub gige_meta : GigeInfo → CameraMetaInfo
unfolding ip_addr
gige_meta g = record {
  serial_number = c_str g.serial_number;
  model_name = c_str g.model_name;
  manufacture_name = c_str g.manufacturer_name;
  device_version = c_str g.device_version;
  user_defined_name = c_str g.user_defined_name;
  camera_type = bytes_of "gige";
  info = (bytes_of "ipAddr", ip_addr g.current_ip) ∷ [];
}

unfoldable pub usb_meta : UsbInfo → CameraMetaInfo
usb_meta u = record {
  serial_number = c_str u.serial_number;
  model_name = c_str u.model_name;
  manufacture_name = c_str u.manufacturer_name;
  device_version = c_str u.device_version;
  user_defined_name = c_str u.user_defined_name;
  camera_type = bytes_of "usb";
  info = (bytes_of "deviceGUID", c_str u.device_guid) ∷ [];
}

module _ (env : Env) where
  -- One round of the loop, with the descriptions that are there.
  unfoldable pub add_meta : List CameraMetaInfo → DeviceInfo → List CameraMetaInfo
  unfolding gige_meta usb_meta
  add_meta infos d =
      if d.layer_type == env.mv_gige_device
      then infos ++ (gige_meta d.gige ∷ [])
      else if d.layer_type == env.mv_usb_device
      then infos ++ (usb_meta d.usb ∷ [])
      else infos

  unfoldable pub to_camera_meta_info_list :
      List (Option DeviceInfo) → List CameraMetaInfo → List CameraMetaInfo
  unfolding add_meta
  to_camera_meta_info_list [] infos = infos
  to_camera_meta_info_list (none ∷ l) infos = to_camera_meta_info_list l infos
  to_camera_meta_info_list (some d ∷ l) infos = to_camera_meta_info_list l (add_meta infos d)

  -- `enum_all_cameras` of a fresh list.
  unfoldable pub enum_all_cameras :
      Provider → Sys env.World → ℤ × List CameraMetaInfo × Provider × Sys env.World
  enum_all_cameras p s =
      let r = enum_all_cameras_info env p s in
      if nonzero r.0
      then (r.0, [], r.1, r.2)
      else (pos 0, to_camera_meta_info_list (r.1).camera_info_list [], r.1, r.2)
