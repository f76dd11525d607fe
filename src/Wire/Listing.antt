-- ===== src/Wire/Listing.antt =====
-- `CameraMetas`, written by the server and read by a client.
use mathlib.Core.Option
use grpc_cplugplug_example.Base.{
  ℕ, ◌≡◌, refl, ap, sym, ◌∙◌, false, none, some, List, [], ◌∷◌, ◌++◌, map, append-nil, append_assoc,
  length, length-append, arith, Option-cases, inl, inr,
}
use grpc_cplugplug_example.Grpc.{CameraMeta}
use grpc_cplugplug_example.Wire.{Field, chunk, Codec}
use grpc_cplugplug_example.Wire.Written.{serialize_meta, serialize_metas, metas_size}
use grpc_cplugplug_example.Wire.Stored.{store_all, parse, store_metas}
use grpc_cplugplug_example.Wire.Laws.{Emits, Laws}
use grpc_cplugplug_example.Wire.Fields.{Emits-nil, Emits-append, store_all-append, parse-Emits}
use grpc_cplugplug_example.Wire.Copies.{Fresh}
use grpc_cplugplug_example.Wire.Metas.{IsShortMeta, IsUtf8, IsTextMeta, meta_size-serialize_meta}
use grpc_cplugplug_example.Wire.Reading.{parse-serialize_meta, parse_meta_refused}

module _ (codec : Codec) where
  -- Each description is short, of UTF-8 texts, and has no key twice.
  abbrev pub Readable : List CameraMeta → Type 0
  Readable [] = Unit {0}
  Readable (m ∷ l) = IsShortMeta codec m × IsTextMeta codec m × Fresh [] m.info × Readable l

  abbrev pub metas_fields : List CameraMeta → List Field
  metas_fields l = map (λ m. chunk 1 (serialize_meta codec m)) l

  serialize_metas-append :
      (k l : List CameraMeta)
      → serialize_metas codec (k ++ l) ≡ serialize_metas codec k ++ serialize_metas codec l
  unfolding serialize_metas
  serialize_metas-append [] l = refl
  serialize_metas-append (m ∷ k) l =
      ap (λ bs. codec.write_message 1 (serialize_meta codec m) ++ bs) (serialize_metas-append k l)
      ∙ sym (
          append_assoc (codec.write_message 1 (serialize_meta codec m)) (serialize_metas codec k)
            (serialize_metas codec l))

  module _ (laws : Laws codec) where
    pub serialize_metas-Emits :
        (l : List CameraMeta) → Readable l → Emits codec (serialize_metas codec l) (metas_fields l)
    unfolding serialize_metas
    serialize_metas-Emits [] v = Emits-nil codec
    serialize_metas-Emits (m ∷ l) v =
        Emits-append codec (codec.write_message 1 (serialize_meta codec m))
          (serialize_metas codec l) (chunk 1 (serialize_meta codec m) ∷ []) (metas_fields l)
          (laws.read_message 1 (serialize_meta codec m) (omega arith, omega arith) v.0.bytes)
          (serialize_metas-Emits l v.3)

    metas_sized :
        (l : List CameraMeta) → Readable l → metas_size codec l ≡ length (serialize_metas codec l)
    unfolding metas_size serialize_metas
    metas_sized [] v = refl
    metas_sized (m ∷ l) v = omega (
      arith,
      laws.message_size 1 (serialize_meta codec m) (omega arith, omega arith) v.0.bytes,
      ap codec.message_size (meta_size-serialize_meta codec laws m v.0),
      metas_sized l v.3,
      length-append (codec.write_message 1 (serialize_meta codec m)) (serialize_metas codec l),
    )

    pub store_metas_all :
        (k l : List CameraMeta)
        → Readable l
        → store_all codec (store_metas codec) k (metas_fields l) ≡ some (k ++ l)
    unfolding store_all store_metas Option.bind
    store_metas_all k [] v = ap some (sym (append-nil k))
    store_metas_all k (m ∷ l) v =
        rw (parse-serialize_meta codec laws m v.0 v.1 v.2)
          (store_metas_all (k ++ (m ∷ [])) l v.3 ∙ ap some (append_assoc k (m ∷ []) l))

    -- With a library that reads what it wrote: descriptions of UTF-8 texts below 2 GB, none of which
    -- has a key twice, are written as as many bytes as were announced, and from these bytes
    -- the same descriptions are read in the same order.
    pub serialize_metas-read :
        (l : List CameraMeta)
        → Readable l
        → (metas_size codec l ≡ length (serialize_metas codec l))
          × (parse codec (store_metas codec) [] (serialize_metas codec l) ≡ some l)
    serialize_metas-read l v = (
      metas_sized l v,
      parse-Emits codec laws (store_metas codec) [] (serialize_metas codec l) (metas_fields l)
            (serialize_metas-Emits l v)
          ∙ store_metas_all [] l v,
    )

    -- With a library that reads what it wrote and takes only UTF-8 for texts: where one of the
    -- cameras has a name given by its user that is not UTF-8, a client can read none of the
    -- descriptions, however good those before it are and whatever follows.
    pub serialize_metas_refused :
        (before after : List CameraMeta) (m : CameraMeta) (c : ℕ) (s : List ℕ)
        → Readable before
        → IsShortMeta codec m
        → IsUtf8 codec m.serial_number
        → IsUtf8 codec m.model_name
        → IsUtf8 codec m.manufacture_name
        → IsUtf8 codec m.device_version
        → m.user_defined_name ≡ c ∷ s
        → codec.is_utf8 (c ∷ s) ≡ false
        → parse codec (store_metas codec) [] (serialize_metas codec (before ++ (m ∷ after))) ≡ none
    unfolding parse serialize_metas store_all store_metas Option.bind
    serialize_metas_refused before after m c s good v a b d e name refused =
        let w = codec.write_message 1 (serialize_meta codec m) in
        let rest = serialize_metas codec after in
        let split : codec.fields (serialize_metas codec (before ++ (m ∷ after)))
            ≡ Option.map (λ gs. metas_fields before ++ gs)
                (Option.map (λ gs. chunk 1 (serialize_meta codec m) ∷ gs) (codec.fields rest)) =
          ap codec.fields (serialize_metas-append before (m ∷ after))
          ∙ serialize_metas-Emits before good (w ++ rest)
          ∙ ap (Option.map (λ gs. metas_fields before ++ gs)) (
              laws.read_message 1 (serialize_meta codec m) (omega arith, omega arith) v.bytes
                rest) in
        elim (Option-cases (codec.fields rest)) [
          | inl q ↦ rw (split, q) refl
          | inr (fs, q) ↦
              rw (split, q)
                (store_all-append codec (store_metas codec) [] before (metas_fields before) _
                    (store_metas_all [] before good)
                  ∙ rw (parse_meta_refused codec laws m c s v a b d e name refused) refl)
        ]
