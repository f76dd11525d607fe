-- ===== src/Wire/Written.antt =====
-- What the messages of src/camera-service.pb.cc write, and the sizes that they announce.
use grpc_cplugplug_example.Base.{
  ℕ, ◌+◌, List, [], ◌∷◌, ◌++◌, if◌then◌else◌, Result, ok, or_fault, bad_access, ◌>>=◌,
}
use grpc_cplugplug_example.Base.Int.{ℤ, nonzero}
use grpc_cplugplug_example.Grpc.{CameraMeta}
use grpc_cplugplug_example.Wire.{Codec, ImageShape, RequestMessage}

module _ (codec : Codec) where
  -- A field with its default value is not written.
  unfoldable pub write_text : ℕ → List ℕ → List ℕ
  write_text n [] = []
  write_text n s = codec.write_string n s

  unfoldable pub text_size : List ℕ → ℕ
  text_size [] = 0
  text_size s = 1 + codec.string_size s

  unfoldable pub write_int : ℕ → ℤ → List ℕ
  write_int n v = if nonzero v then codec.write_int32 n v else []

  unfoldable pub int_size : ℤ → ℕ
  int_size v = if nonzero v then codec.int32_size_plus_one v else 0

  -- `_InternalSerialize` and `ByteSizeLong`.
  unfoldable pub serialize_shape : ImageShape → List ℕ
  unfolding write_int
  serialize_shape m = write_int 1 m.width ++ (write_int 2 m.height ++ write_int 3 m.channel)

  unfoldable pub shape_size : ImageShape → ℕ
  unfolding int_size
  shape_size m = int_size m.width + (int_size m.height + int_size m.channel)

  unfoldable pub serialize_request : RequestMessage → Result (List ℕ)
  unfolding write_text serialize_shape
  serialize_request m =
      if m.has_image_shape
      then (or_fault m.image_shape bad_access >>= λ s.
          ok (write_text 1 m.sn ++ codec.write_message 2 (serialize_shape s)))
      else ok (write_text 1 m.sn)

  unfoldable pub request_size : RequestMessage → Result ℕ
  unfolding text_size shape_size
  request_size m =
      if m.has_image_shape
      then (or_fault m.image_shape bad_access >>= λ s.
          ok (text_size m.sn + (1 + codec.message_size (shape_size s))))
      else ok (text_size m.sn)

  -- `BytesBody`, whose one field is the content.
  unfoldable pub serialize_body : List ℕ → List ℕ
  unfolding write_text
  serialize_body content = write_text 1 content

  unfoldable pub body_size : List ℕ → ℕ
  unfolding text_size
  body_size content = text_size content

  unfoldable pub write_info : List (List ℕ × List ℕ) → List ℕ
  write_info [] = []
  write_info (e ∷ l) = codec.write_entry 7 e ++ write_info l

  unfoldable pub info_size : List (List ℕ × List ℕ) → ℕ
  info_size [] = 0
  info_size (e ∷ l) = 1 + codec.entry_size e + info_size l

  unfoldable pub serialize_meta : CameraMeta → List ℕ
  unfolding write_text write_info
  serialize_meta m =
      write_text 1 m.serial_number
      ++ (write_text 2 m.model_name
          ++ (write_text 3 m.manufacture_name
              ++ (write_text 4 m.device_version
                  ++ (write_text 5 m.user_defined_name
                      ++ (write_text 6 m.camera_type ++ write_info m.info)))))

  unfoldable pub meta_size : CameraMeta → ℕ
  unfolding text_size info_size
  meta_size m =
      info_size m.info
      + text_size m.serial_number
      + text_size m.model_name
      + text_size m.manufacture_name
      + text_size m.device_version
      + text_size m.user_defined_name
      + text_size m.camera_type

  -- `CameraMetas`, whose one field is the list of its messages.
  unfoldable pub serialize_metas : List CameraMeta → List ℕ
  unfolding serialize_meta
  serialize_metas [] = []
  serialize_metas (m ∷ l) = codec.write_message 1 (serialize_meta m) ++ serialize_metas l

  unfoldable pub metas_size : List CameraMeta → ℕ
  unfolding meta_size
  metas_size [] = 0
  metas_size (m ∷ l) = 1 + codec.message_size (meta_size m) + metas_size l
