-- ===== src/Grpc/Messages.antt =====
-- What `GetCameraMetas` answers.
use grpc_cplugplug_example.Base.{
  ◌≡◌, refl, ap, sym, ◌∙◌, Option, none, some, List, [], ◌∷◌, ◌++◌, append_assoc, append-nil, ◌==◌,
  if◌then◌else◌, Bool-cases, inl, inr,
}
use grpc_cplugplug_example.Base.Int.{nonzero}
use grpc_cplugplug_example.Text.{c_str}
use grpc_cplugplug_example.Sdk.{DeviceInfo, Env, Sys}
use grpc_cplugplug_example.Provider.{Provider, enum_all_cameras_info}
use grpc_cplugplug_example.Provider.Metas.{
  CameraMetaInfo, ip_addr, bytes_of, gige_meta, usb_meta, add_meta, to_camera_meta_info_list,
  enum_all_cameras,
}
use grpc_cplugplug_example.Grpc.{
  CameraMeta, has_key, map_insert, insert_all, to_message, add_messages, get_camera_metas,
}

module _ (env : Env) where
  -- The specification: what a client is told of one device; nothing of one of an unknown type.
  unfoldable pub message_of : DeviceInfo → List CameraMeta
  message_of d =
      if d.layer_type == env.mv_gige_device
      then record {
        serial_number = c_str d.gige.serial_number;
        model_name = c_str d.gige.model_name;
        manufacture_name = c_str d.gige.manufacturer_name;
        device_version = c_str d.gige.device_version;
        user_defined_name = c_str d.gige.user_defined_name;
        camera_type = bytes_of "gige";
        info = (bytes_of "ipAddr", ip_addr d.gige.current_ip) ∷ [];
      }
        ∷ []
      else if d.layer_type == env.mv_usb_device
      then record {
        serial_number = c_str d.usb.serial_number;
        model_name = c_str d.usb.model_name;
        manufacture_name = c_str d.usb.manufacturer_name;
        device_version = c_str d.usb.device_version;
        user_defined_name = c_str d.usb.user_defined_name;
        camera_type = bytes_of "usb";
        info = (bytes_of "deviceGUID", c_str d.usb.device_guid) ∷ [];
      }
        ∷ []
      else []

  -- Of a list of devices, in its order, the entries that are NULL passed over.
  unfoldable pub messages_of : List (Option DeviceInfo) → List CameraMeta
  messages_of [] = []
  messages_of (none ∷ l) = messages_of l
  messages_of (some d ∷ l) = message_of d ++ messages_of l

  add_messages-append :
      (r : List CameraMeta) (a b : List CameraMetaInfo)
      → add_messages r (a ++ b) ≡ add_messages (add_messages r a) b
  unfolding add_messages
  add_messages-append r [] b = refl
  add_messages-append r (i ∷ a) b = add_messages-append (r ++ (to_message i ∷ [])) a b

  add_meta-message_of :
      (infos : List CameraMetaInfo) (d : DeviceInfo)
      → add_messages [] (add_meta env infos d) ≡ add_messages [] infos ++ message_of d
  unfolding add_meta message_of
  add_meta-message_of infos d = elim (Bool-cases (d.layer_type == env.mv_gige_device)) [
    | inl gige ↦ rw gige (
        add_messages-append [] infos (gige_meta d.gige ∷ [])
        ∙ (unfold add_messages to_message insert_all map_insert has_key gige_meta in refl))
    | inr other ↦ elim (Bool-cases (d.layer_type == env.mv_usb_device)) [
      | inl usb ↦
          rw (other, usb)
            (add_messages-append [] infos (usb_meta d.usb ∷ [])
              ∙ (unfold add_messages to_message insert_all map_insert has_key usb_meta in refl))
      | inr unknown ↦ rw (other, unknown) (sym (append-nil _))
    ]
  ]

  list-messages_of :
      (l : List (Option DeviceInfo)) (infos : List CameraMetaInfo)
      → add_messages [] (to_camera_meta_info_list env l infos)
        ≡ add_messages [] infos ++ messages_of l
  unfolding to_camera_meta_info_list messages_of
  list-messages_of [] infos = sym (append-nil _)
  list-messages_of (none ∷ l) infos = list-messages_of l infos
  list-messages_of (some d ∷ l) infos =
      list-messages_of l (add_meta env infos d)
      ∙ ap (λ x. x ++ messages_of l) (add_meta-message_of infos d)
      ∙ append_assoc (add_messages [] infos) (message_of d) (messages_of l)

  -- Where the devices could be enumerated, the messages that `GetCameraMetas` answers with
  -- describe exactly those of a known type, in their order and with the entries that are NULL
  -- passed over; where they could not, there is no message.
  pub get_camera_metas-messages_of :
      (p : Provider) (s : Sys env.World)
      → let r = enum_all_cameras_info env p s in
        (get_camera_metas env p s).1
        ≡ (if nonzero r.0 then [] else messages_of (r.1).camera_info_list)
  unfolding get_camera_metas enum_all_cameras
  get_camera_metas-messages_of p s = elim (Bool-cases (nonzero (enum_all_cameras_info env p s).0)) [
    | inl failed ↦ rw failed (unfold add_messages in refl)
    | inr fine ↦ rw fine (
        list-messages_of ((enum_all_cameras_info env p s).1).camera_info_list []
        ∙ (unfold add_messages in refl))
  ]
