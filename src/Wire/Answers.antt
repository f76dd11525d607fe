-- ===== src/Wire/Answers.antt =====
-- The answer of `GetCameraMetas` of src/camera_grpc_server.cc, as a client reads it.
use grpc_cplugplug_example.Base.{
  ◌≡◌, refl, ap, sym, ◌∙◌, Option, none, some, List, [], ◌∷◌, ◌++◌, length, subst, Bool-cases, inl,
  inr, ◌==◌, if◌then◌else◌,
}
use grpc_cplugplug_example.Base.Int.{nonzero}
use grpc_cplugplug_example.Sdk.{DeviceInfo, Env, Sys}
use grpc_cplugplug_example.Provider.{Provider, enum_all_cameras_info}
use grpc_cplugplug_example.Provider.Map.{lookup}
use grpc_cplugplug_example.Grpc.{CameraMeta, get_camera_metas}
use grpc_cplugplug_example.Grpc.Messages.{message_of, messages_of, get_camera_metas-messages_of}
use grpc_cplugplug_example.Wire.{Codec}
use grpc_cplugplug_example.Wire.Written.{serialize_metas, metas_size}
use grpc_cplugplug_example.Wire.Stored.{store_metas, parse}
use grpc_cplugplug_example.Wire.Laws.{Laws}
use grpc_cplugplug_example.Wire.Copies.{Fresh}
use grpc_cplugplug_example.Wire.Metas.{IsShortMeta, IsTextMeta}
use grpc_cplugplug_example.Wire.Listing.{Readable, serialize_metas-read}

-- The entries of each description have different keys.
abbrev AllFresh : List CameraMeta → Type 0
AllFresh [] = Unit {0}
AllFresh (m ∷ l) = Fresh [] m.info × AllFresh l

AllFresh-append : (k l : List CameraMeta) → AllFresh k → AllFresh l → AllFresh (k ++ l)
AllFresh-append [] l v w = w
AllFresh-append (m ∷ k) l v w = (v.0, AllFresh-append k l v.1 w)

module _ (codec : Codec) where
  -- Each description is short and of UTF-8 texts.
  abbrev pub Plain : List CameraMeta → Type 0
  Plain [] = Unit {0}
  Plain (m ∷ l) = IsShortMeta codec m × IsTextMeta codec m × Plain l

  Plain-Readable : (l : List CameraMeta) → Plain l → AllFresh l → Readable codec l
  Plain-Readable [] v w = tt
  Plain-Readable (m ∷ l) v w = (v.0, v.1, w.0, Plain-Readable l v.2 w.1)

module _ (env : Env) where
  message_of-AllFresh : (d : DeviceInfo) → AllFresh (message_of env d)
  unfolding message_of lookup
  message_of-AllFresh d = elim (Bool-cases (d.layer_type == env.mv_gige_device)) [
    | inl gige ↦ rw gige ((refl, tt), tt)
    | inr other ↦ elim (Bool-cases (d.layer_type == env.mv_usb_device)) [
      | inl usb ↦ rw (other, usb) ((refl, tt), tt)
      | inr unknown ↦ rw (other, unknown) tt
    ]
  ]

  messages_of-AllFresh : (l : List (Option DeviceInfo)) → AllFresh (messages_of env l)
  unfolding messages_of
  messages_of-AllFresh [] = tt
  messages_of-AllFresh (none ∷ l) = messages_of-AllFresh l
  messages_of-AllFresh (some d ∷ l) =
      AllFresh-append (message_of env d) (messages_of env l) (message_of-AllFresh d)
        (messages_of-AllFresh l)

  answer-AllFresh : (p : Provider) (s : Sys env.World) → AllFresh (get_camera_metas env p s).1
  answer-AllFresh p s =
      subst AllFresh (sym (get_camera_metas-messages_of env p s))
        (elim (Bool-cases (nonzero (enum_all_cameras_info env p s).0)) [
          | inl failed ↦ rw failed tt
          | inr fine ↦
              rw fine (messages_of-AllFresh ((enum_all_cameras_info env p s).1).camera_info_list)
        ])

  -- With a protobuf library that reads what it wrote: the answer of `GetCameraMetas`, where its texts are
  -- UTF-8 and it is below 2 GB, is written as as many bytes as were announced, and a client reads from
  -- them one description for each device of a known type, in their order, and none where
  -- the devices could not be enumerated.
  pub get_camera_metas-read :
      (codec : Codec) (p : Provider) (s : Sys env.World)
      → Laws codec
      → Plain codec (get_camera_metas env p s).1
      → let r = enum_all_cameras_info env p s in
        let bs = serialize_metas codec (get_camera_metas env p s).1 in
        (metas_size codec (get_camera_metas env p s).1 ≡ length bs)
        × (parse codec (store_metas codec) [] bs
            ≡ some (if nonzero r.0 then [] else messages_of env (r.1).camera_info_list))
  get_camera_metas-read codec p s laws plain =
      let read =
        serialize_metas-read codec laws (get_camera_metas env p s).1
          (Plain-Readable codec (get_camera_metas env p s).1 plain (answer-AllFresh p s)) in
      (read.0, read.1 ∙ ap some (get_camera_metas-messages_of env p s))
