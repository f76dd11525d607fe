-- ===== src/Wire/Merging.antt =====
-- Reading a message into one that is there, against `MergeImpl` of src/camera-service.pb.cc.
use mathlib.Core.Option
use grpc_cplugplug_example.Base.{
  ℕ, ◌≡◌, refl, ap, sym, ◌∙◌, some, List, [], ◌∷◌, ◌++◌, append-nil, arith, Bool-cases, inl, inr,
}
use grpc_cplugplug_example.Base.Int.{ℤ, nonzero}
use grpc_cplugplug_example.Grpc.{CameraMeta}
use grpc_cplugplug_example.Wire.{
  Field, chunk, varint, Codec, ImageShape, text_merged, int_merged, merge_shape, merge_meta,
  merge_body, merge_metas,
}
use grpc_cplugplug_example.Wire.Written.{
  serialize_shape, serialize_meta, serialize_body, serialize_metas, write_text,
}
use grpc_cplugplug_example.Wire.Stored.{
  checked, store_all, parse, store_shape, store_meta, store_body, store_metas,
}
use grpc_cplugplug_example.Wire.Laws.{IsShort, Laws}
use grpc_cplugplug_example.Wire.Fields.{text_fields, int_fields, parse-Emits, write_text-Emits}
use grpc_cplugplug_example.Wire.Shapes.{IsShape, shape_fields, serialize_shape-Emits}
use grpc_cplugplug_example.Wire.Metas.{
  IsShortMeta, IsUtf8, IsTextMeta, name_fields, meta_fields, serialize_meta-Emits,
}
use grpc_cplugplug_example.Wire.Reading.{stored, store_info}
use grpc_cplugplug_example.Wire.Listing.{
  Readable, metas_fields, serialize_metas-Emits, store_metas_all,
}

module _ (codec : Codec) (laws : Laws codec) where
  text_over :
      (n : ℕ) (set_it : List ℕ → CameraMeta) (old s : List ℕ) (fs : List Field)
      → ((x : List ℕ) → store_meta codec (set_it old) (chunk n x) ≡ checked codec x (set_it x))
      → IsUtf8 codec s
      → stored codec laws (set_it old) (text_fields n s ++ fs)
        ≡ stored codec laws (set_it (text_merged old s)) fs
  unfolding store_all checked Option.bind
  text_over n set_it old [] fs h e = refl
  text_over n set_it old (c ∷ s) fs h e = rw (h (c ∷ s), e) refl

  -- A description that is written and read into another one.
  parse-merge_meta :
      (to from : CameraMeta)
      → IsShortMeta codec from
      → IsTextMeta codec from
      → parse codec (store_meta codec) to (serialize_meta codec from) ≡ some (merge_meta to from)
  unfolding store_meta merge_meta
  parse-merge_meta to from v u =
      let m1 = record to { serial_number = text_merged to.serial_number from.serial_number } in
      let m2 = record m1 { model_name = text_merged to.model_name from.model_name } in
      let m3 = record m2 {
        manufacture_name = text_merged to.manufacture_name from.manufacture_name;
      } in
      let m4 = record m3 { device_version = text_merged to.device_version from.device_version } in
      let m5 = record m4 {
        user_defined_name = text_merged to.user_defined_name from.user_defined_name;
      } in
      parse-Emits codec laws (store_meta codec) to (serialize_meta codec from)
        (meta_fields codec laws from v) (serialize_meta-Emits codec laws from v)
      ∙ text_over 1 (λ x. record to { serial_number = x }) to.serial_number from.serial_number _
          (λ x. refl) u.serial_number
      ∙ text_over 2 (λ x. record m1 { model_name = x }) to.model_name from.model_name _ (λ x. refl)
          u.model_name
      ∙ text_over 3 (λ x. record m2 { manufacture_name = x }) to.manufacture_name
          from.manufacture_name _ (λ x. refl) u.manufacture_name
      ∙ text_over 4 (λ x. record m3 { device_version = x }) to.device_version from.device_version
          (name_fields codec laws from v) (λ x. refl) u.device_version
      ∙ text_over 5 (λ x. record m4 { user_defined_name = x }) to.user_defined_name
          from.user_defined_name _ (λ x. refl) u.user_defined_name
      ∙ text_over 6 (λ x. record m5 { camera_type = x }) to.camera_type from.camera_type _
          (λ x. refl) u.camera_type
      ∙ store_info codec laws
          (record m5 { camera_type = text_merged to.camera_type from.camera_type }) from.info v.info
          u.info

  int_over :
      (n : ℕ) (set_it : ℤ → ImageShape) (old v : ℤ) (fs : List Field)
      → ((x : ℤ) → store_shape codec (set_it old) (varint n x) ≡ some (set_it x))
      → store_all codec (store_shape codec) (set_it old) (int_fields n v ++ fs)
        ≡ store_all codec (store_shape codec) (set_it (int_merged old v)) fs
  unfolding store_all Option.bind
  int_over n set_it old v fs h = elim (Bool-cases (nonzero v)) [
    | inl e ↦ rw (e, h v) refl
    | inr e ↦ rw e refl
  ]

  parse-merge_shape :
      (to from : ImageShape)
      → IsShape codec laws from
      → parse codec (store_shape codec) to (serialize_shape codec from) ≡ some (merge_shape to from)
  unfolding store_shape merge_shape store_all
  parse-merge_shape to from v =
      let s1 = record to { width = int_merged to.width from.width } in
      let s2 = record s1 { height = int_merged to.height from.height } in
      parse-Emits codec laws (store_shape codec) to (serialize_shape codec from)
        (shape_fields codec laws from) (serialize_shape-Emits codec laws from v)
      ∙ int_over 1 (λ x. record to { width = x }) to.width from.width
          (int_fields 2 from.height ++ int_fields 3 from.channel) (λ x. refl)
      ∙ int_over 2 (λ x. record s1 { height = x }) to.height from.height (int_fields 3 from.channel)
          (λ x. refl)
      ∙ ap (store_all codec (store_shape codec) s2) (sym (append-nil (int_fields 3 from.channel)))
      ∙ int_over 3 (λ x. record s2 { channel = x }) to.channel from.channel [] (λ x. refl)

  parse-merge_body :
      (to from : List ℕ)
      → IsShort from
      → parse codec (store_body codec) to (serialize_body codec from) ≡ some (merge_body to from)
  unfolding serialize_body merge_body
  parse-merge_body to from short =
      parse-Emits codec laws (store_body codec) to (write_text codec 1 from) (text_fields 1 from)
        (write_text-Emits codec laws 1 from (omega arith, omega arith) short)
      ∙ kept from
    where
      kept :
          (s : List ℕ)
          → store_all codec (store_body codec) to (text_fields 1 s) ≡ some (text_merged to s)
      kept [] = unfold store_all in refl
      kept (c ∷ s) = unfold store_all store_body Option.bind in refl

  -- With a library that reads what it wrote: what was written of a message, read into another one of its
  -- kind, makes of this one what `MergeFrom` makes of the two. That holds for a shape of 32-bit
  -- numbers, for the description of a camera of UTF-8 texts, also with a key twice, for a
  -- content, each below 2 GB, and for lists of descriptions that can be read.
  pub parse-merged :
      (s s' : ImageShape) (m m' : CameraMeta) (b b' : List ℕ) (l l' : List CameraMeta)
      → IsShape codec laws s'
      → IsShortMeta codec m'
      → IsTextMeta codec m'
      → IsShort b'
      → Readable codec l'
      → (parse codec (store_shape codec) s (serialize_shape codec s') ≡ some (merge_shape s s'))
        × (parse codec (store_meta codec) m (serialize_meta codec m') ≡ some (merge_meta m m'))
        × (parse codec (store_body codec) b (serialize_body codec b') ≡ some (merge_body b b'))
        × (parse codec (store_metas codec) l (serialize_metas codec l') ≡ some (merge_metas l l'))
  unfolding merge_metas
  parse-merged s s' m m' b b' l l' vs vm um vb vl = (
    parse-merge_shape s s' vs,
    parse-merge_meta m m' vm um,
    parse-merge_body b b' vb,
    parse-Emits codec laws (store_metas codec) l (serialize_metas codec l') (metas_fields codec l')
          (serialize_metas-Emits codec laws l' vl)
        ∙ store_metas_all codec laws l l' vl,
  )
