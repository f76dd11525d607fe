-- ===== src/Wire/Metas.antt =====
-- `CameraMeta_` and `CameraMetas`, written and read again.
use grpc_cplugplug_example.Base.{
  ℕ, ◌+◌, ◌≡◌, refl, true, List, [], ◌∷◌, ◌++◌, length, length-append, arith,
}
use grpc_cplugplug_example.Grpc.{CameraMeta}
use grpc_cplugplug_example.Wire.{Field, chunk, Codec}
use grpc_cplugplug_example.Wire.Written.{
  write_text, text_size, write_info, info_size, serialize_meta, meta_size,
}
use grpc_cplugplug_example.Wire.Laws.{IsShort, IsLow, Emits, Laws}
use grpc_cplugplug_example.Wire.Fields.{
  text_fields, Emits-nil, Emits-append, write_text-Emits, text_size-write_text,
}

-- The entries are below 2 GB.
abbrev pub ShortEntries : List (List ℕ × List ℕ) → Type 0
ShortEntries [] = Unit {0}
ShortEntries (e ∷ l) = IsShort e.0 × IsShort e.1 × ShortEntries l

module _ (codec : Codec) where
  -- Everything is below 2 GB.
  pub record IsShortMeta (m : CameraMeta) : Type 0 where
    pub serial_number : IsShort m.serial_number
    pub model_name : IsShort m.model_name
    pub manufacture_name : IsShort m.manufacture_name
    pub device_version : IsShort m.device_version
    pub user_defined_name : IsShort m.user_defined_name
    pub camera_type : IsShort m.camera_type
    pub info : ShortEntries m.info
    pub bytes : IsShort (serialize_meta codec m)

  abbrev pub IsUtf8 : List ℕ → Type 0
  IsUtf8 s = codec.is_utf8 s ≡ true

  abbrev pub Utf8Entries : List (List ℕ × List ℕ) → Type 0
  Utf8Entries [] = Unit {0}
  Utf8Entries (e ∷ l) = IsUtf8 e.0 × IsUtf8 e.1 × Utf8Entries l

  -- Every text is UTF-8.
  pub record IsTextMeta (m : CameraMeta) : Type 0 where
    pub serial_number : IsUtf8 m.serial_number
    pub model_name : IsUtf8 m.model_name
    pub manufacture_name : IsUtf8 m.manufacture_name
    pub device_version : IsUtf8 m.device_version
    pub user_defined_name : IsUtf8 m.user_defined_name
    pub camera_type : IsUtf8 m.camera_type
    pub info : Utf8Entries m.info

  module _ (laws : Laws codec) where
    abbrev pub info_fields : (l : List (List ℕ × List ℕ)) → ShortEntries l → List Field
    info_fields [] v = []
    info_fields (e ∷ l) v =
        chunk 7 (laws.read_entry 7 e (omega arith, omega arith) v.0 v.1).0 ∷ info_fields l v.2

    write_info-Emits :
        (l : List (List ℕ × List ℕ)) (v : ShortEntries l)
        → Emits codec (write_info codec l) (info_fields l v)
    unfolding write_info
    write_info-Emits [] v = Emits-nil codec
    write_info-Emits (e ∷ l) v =
        let (payload, key_value, emits) = laws.read_entry 7 e (omega arith, omega arith) v.0 v.1 in
        Emits-append codec (codec.write_entry 7 e) (write_info codec l) (chunk 7 payload ∷ [])
          (info_fields l v.2) emits (write_info-Emits l v.2)

    info_size-write_info :
        (l : List (List ℕ × List ℕ))
        → ShortEntries l
        → info_size codec l ≡ length (write_info codec l)
    unfolding info_size write_info
    info_size-write_info [] v = refl
    info_size-write_info (e ∷ l) v = omega (
      arith,
      laws.entry_size 7 e (omega arith, omega arith) v.0 v.1,
      info_size-write_info l v.2,
      length-append (codec.write_entry 7 e) (write_info codec l),
    )

    -- The fields from the one with this number on.
    abbrev pub name_fields : (m : CameraMeta) → IsShortMeta m → List Field
    name_fields m v =
        text_fields 5 m.user_defined_name
        ++ (text_fields 6 m.camera_type ++ info_fields m.info v.info)

    abbrev pub meta_fields : (m : CameraMeta) → IsShortMeta m → List Field
    meta_fields m v =
        text_fields 1 m.serial_number
        ++ (text_fields 2 m.model_name
            ++ (text_fields 3 m.manufacture_name
                ++ (text_fields 4 m.device_version ++ name_fields m v)))

    text_then :
        (n : ℕ) (s bs : List ℕ) (fs : List Field)
        → IsLow n
        → IsShort s
        → Emits codec bs fs
        → Emits codec (write_text codec n s ++ bs) (text_fields n s ++ fs)
    text_then n s bs fs low short h =
        Emits-append codec (write_text codec n s) bs (text_fields n s) fs
          (write_text-Emits codec laws n s low short) h

    pub serialize_meta-Emits :
        (m : CameraMeta) (v : IsShortMeta m)
        → Emits codec (serialize_meta codec m) (meta_fields m v)
    unfolding serialize_meta
    serialize_meta-Emits m v =
        text_then 1 m.serial_number _ _ (omega arith, omega arith) v.serial_number
          (text_then 2 m.model_name _ _ (omega arith, omega arith) v.model_name
            (text_then 3 m.manufacture_name _ _ (omega arith, omega arith) v.manufacture_name
              (text_then 4 m.device_version _ _ (omega arith, omega arith) v.device_version
                (text_then 5 m.user_defined_name _ _ (omega arith, omega arith) v.user_defined_name
                  (text_then 6 m.camera_type _ _ (omega arith, omega arith) v.camera_type
                    (write_info-Emits m.info v.info))))))

    text_sized :
        (n size : ℕ) (s bs : List ℕ)
        → IsLow n
        → IsShort s
        → size ≡ length bs
        → text_size codec s + size ≡ length (write_text codec n s ++ bs)
    text_sized n size s bs low short e = omega (
      arith,
      e,
      text_size-write_text codec laws n s low short,
      length-append (write_text codec n s) bs,
    )

    pub meta_size-serialize_meta :
        (m : CameraMeta) → IsShortMeta m → meta_size codec m ≡ length (serialize_meta codec m)
    unfolding meta_size serialize_meta
    meta_size-serialize_meta m v =
        let e =
          text_sized 1 _ m.serial_number _ (omega arith, omega arith) v.serial_number
            (text_sized 2 _ m.model_name _ (omega arith, omega arith) v.model_name
              (text_sized 3 _ m.manufacture_name _ (omega arith, omega arith) v.manufacture_name
                (text_sized 4 _ m.device_version _ (omega arith, omega arith) v.device_version
                  (text_sized 5 _ m.user_defined_name _ (omega arith, omega arith)
                    v.user_defined_name
                    (text_sized 6 _ m.camera_type _ (omega arith, omega arith) v.camera_type
                      (info_size-write_info m.info v.info)))))) in
        omega (arith, e)
