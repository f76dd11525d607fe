-- ===== src/Wire/Reading.antt =====
-- What a client reads of a written `CameraMetas`.
use mathlib.Core.Option
use grpc_cplugplug_example.Base.{
  ℕ, ◌≡◌, refl, ap, ◌∙◌, false, Option, none, some, List, [], ◌∷◌, ◌++◌, arith,
}
use grpc_cplugplug_example.Provider.Map.{insert}
use grpc_cplugplug_example.Grpc.{CameraMeta}
use grpc_cplugplug_example.Wire.{Field, chunk, Codec, empty_meta, merge_info}
use grpc_cplugplug_example.Wire.Written.{serialize_meta}
use grpc_cplugplug_example.Wire.Stored.{checked, store_all, parse, store_entry, store_meta}
use grpc_cplugplug_example.Wire.Laws.{Laws}
use grpc_cplugplug_example.Wire.Fields.{text_fields, parse-Emits}
use grpc_cplugplug_example.Wire.Copies.{Fresh, merge_info_new}
use grpc_cplugplug_example.Wire.Metas.{
  ShortEntries, IsShortMeta, IsUtf8, Utf8Entries, IsTextMeta, info_fields, name_fields, meta_fields,
  serialize_meta-Emits,
}

module _ (codec : Codec) (laws : Laws codec) where
  abbrev pub stored : CameraMeta → List Field → Option CameraMeta
  stored = store_all codec (store_meta codec)

  store_text :
      (n : ℕ) (set_it : List ℕ → CameraMeta) (s : List ℕ) (fs : List Field)
      → ((x : List ℕ) → store_meta codec (set_it []) (chunk n x) ≡ checked codec x (set_it x))
      → IsUtf8 codec s
      → stored (set_it []) (text_fields n s ++ fs) ≡ stored (set_it s) fs
  unfolding store_all checked Option.bind
  store_text n set_it [] fs h e = refl
  store_text n set_it (c ∷ s) fs h e = rw (h (c ∷ s), e) refl

  store_text_refused :
      (n : ℕ) (set_it : List ℕ → CameraMeta) (c : ℕ) (s : List ℕ) (fs : List Field)
      → ((x : List ℕ) → store_meta codec (set_it []) (chunk n x) ≡ checked codec x (set_it x))
      → codec.is_utf8 (c ∷ s) ≡ false
      → stored (set_it []) (text_fields n (c ∷ s) ++ fs) ≡ none
  unfolding store_all checked Option.bind
  store_text_refused n set_it c s fs h e = rw (h (c ∷ s), e) refl

  pub store_info :
      (m : CameraMeta) (l : List (List ℕ × List ℕ)) (v : ShortEntries l)
      → Utf8Entries codec l
      → stored m (info_fields codec laws l v) ≡ some (record m { info = merge_info m.info l })
  unfolding store_all store_meta store_entry checked merge_info Option.bind
  store_info m [] v u = refl
  store_info m (e ∷ l) v u =
      let (payload, key_value, emits) = laws.read_entry 7 e (omega arith, omega arith) v.0 v.1 in
      simp (key_value, u.0, u.1) (store_info (record m { info = insert e.0 e.1 m.info }) l v.2 u.2)

  abbrev texts : List ℕ → List ℕ → List ℕ → List ℕ → List ℕ → List ℕ → CameraMeta
  texts a b c d e f = record {
    serial_number = a;
    model_name = b;
    manufacture_name = c;
    device_version = d;
    user_defined_name = e;
    camera_type = f;
    info = [];
  }

  store_first_four :
      (m : CameraMeta) (v : IsShortMeta codec m)
      → IsUtf8 codec m.serial_number
      → IsUtf8 codec m.model_name
      → IsUtf8 codec m.manufacture_name
      → IsUtf8 codec m.device_version
      → stored empty_meta (meta_fields codec laws m v)
        ≡ stored
            (texts m.serial_number m.model_name m.manufacture_name m.device_version [] [])
            (name_fields codec laws m v)
  unfolding store_meta
  store_first_four m v a b c d =
      store_text 1 (λ x. texts x [] [] [] [] []) m.serial_number _ (λ x. refl) a
      ∙ store_text 2 (λ x. texts m.serial_number x [] [] [] []) m.model_name _ (λ x. refl) b
      ∙ store_text 3 (λ x. texts m.serial_number m.model_name x [] [] []) m.manufacture_name _
          (λ x. refl) c
      ∙ store_text 4 (λ x. texts m.serial_number m.model_name m.manufacture_name x [] [])
          m.device_version (name_fields codec laws m v) (λ x. refl) d

  pub parse-serialize_meta :
      (m : CameraMeta)
      → IsShortMeta codec m
      → IsTextMeta codec m
      → Fresh [] m.info
      → parse codec (store_meta codec) empty_meta (serialize_meta codec m) ≡ some m
  unfolding store_meta
  parse-serialize_meta m v u fresh =
      parse-Emits codec laws (store_meta codec) empty_meta (serialize_meta codec m)
        (meta_fields codec laws m v) (serialize_meta-Emits codec laws m v)
      ∙ store_first_four m v u.serial_number u.model_name u.manufacture_name u.device_version
      ∙ store_text 5
          (λ x. texts m.serial_number m.model_name m.manufacture_name m.device_version x [])
          m.user_defined_name _ (λ x. refl) u.user_defined_name
      ∙ store_text 6
          (λ x.
            texts m.serial_number m.model_name m.manufacture_name m.device_version
              m.user_defined_name x)
          m.camera_type _ (λ x. refl) u.camera_type
      ∙ store_info
          (texts m.serial_number m.model_name m.manufacture_name m.device_version
            m.user_defined_name m.camera_type)
          m.info v.info u.info
      ∙ ap (λ i. some (record m { info = i })) (merge_info_new [] m.info fresh)

  pub parse_meta_refused :
      (m : CameraMeta) (c : ℕ) (s : List ℕ)
      → IsShortMeta codec m
      → IsUtf8 codec m.serial_number
      → IsUtf8 codec m.model_name
      → IsUtf8 codec m.manufacture_name
      → IsUtf8 codec m.device_version
      → m.user_defined_name ≡ c ∷ s
      → codec.is_utf8 (c ∷ s) ≡ false
      → parse codec (store_meta codec) empty_meta (serialize_meta codec m) ≡ none
  unfolding store_meta
  parse_meta_refused m c s v a b d e name refused =
      parse-Emits codec laws (store_meta codec) empty_meta (serialize_meta codec m)
        (meta_fields codec laws m v) (serialize_meta-Emits codec laws m v)
      ∙ store_first_four m v a b d e
      ∙ rw name (
          store_text_refused 5
            (λ x. texts m.serial_number m.model_name m.manufacture_name m.device_version x []) c s _
            (λ x. refl) refused)
