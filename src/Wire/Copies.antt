-- ===== src/Wire/Copies.antt =====
-- `CopyFrom` of the messages, and the entries of `info`.
use grpc_cplugplug_example.Base.{
  ℕ, ◌≡◌, refl, ap, sym, ◌∙◌, ◌⊎◌, true, false, Option, none, some, List, [], ◌∷◌, ◌++◌,
  append_assoc, append-nil, Bool-cases, inl, inr, ok,
}
use grpc_cplugplug_example.Base.Int.{ℤ, pos, nonzero, nonzero_iff}
use grpc_cplugplug_example.Provider.Map.{text_eq, lookup, insert}
use grpc_cplugplug_example.Grpc.{CameraMeta}
use grpc_cplugplug_example.Wire.{
  ImageShape, RequestMessage, zero_shape, text_merged, int_merged, merge_shape, merged_shape,
  copy_shape, clear_request, merge_request, copy_request, merge_info, merge_meta, copy_meta,
  request_of, shape_read,
}

-- The keys are each there once, and not among those seen before.
abbrev pub Fresh : List (List ℕ × List ℕ) → List (List ℕ × List ℕ) → Type 0
Fresh seen [] = Unit {0}
Fresh seen ((k, v) ∷ l) = (lookup k seen ≡ none) × Fresh (seen ++ ((k, v) ∷ [])) l

pub insert_new :
    (k v : List ℕ) (l : List (List ℕ × List ℕ))
    → lookup k l ≡ none
    → insert k v l ≡ l ++ ((k, v) ∷ [])
unfolding lookup insert
insert_new k v [] e = refl
insert_new k v ((j, w) ∷ l) e = elim (Bool-cases (text_eq j k)) [
  | inl same ↦ absurd (cc (simp same at e))
  | inr apart ↦ rw apart (ap (λ r. (j, w) ∷ r) (insert_new k v l (simp apart at e)))
]

pub merge_info_new :
    (seen l : List (List ℕ × List ℕ)) → Fresh seen l → merge_info seen l ≡ seen ++ l
unfolding merge_info
merge_info_new seen [] h = sym (append-nil seen)
merge_info_new seen ((k, v) ∷ l) h =
    rw (insert_new k v seen h.0)
      (merge_info_new (seen ++ ((k, v) ∷ [])) l h.1 ∙ append_assoc seen ((k, v) ∷ []) l)

text_merged_empty : (s : List ℕ) → text_merged [] s ≡ s
text_merged_empty [] = refl
text_merged_empty (c ∷ s) = refl

int_merged_zero : (v : ℤ) → int_merged (pos 0) v ≡ v
int_merged_zero v = elim (Bool-cases (nonzero v)) [
  | inl e ↦ rw e refl
  | inr e ↦ rw e (sym ((nonzero_iff v).0 e))
]

-- `CopyFrom` of a description, into whatever there was, makes it that of the other object, if no key of
-- the other's entries is there twice.
pub copy_meta_lem : (to from : CameraMeta) → Fresh [] from.info → copy_meta to from ≡ from
unfolding copy_meta merge_meta
copy_meta_lem to from h =
    simp
      (
        text_merged_empty from.serial_number,
        text_merged_empty from.model_name,
        text_merged_empty from.manufacture_name,
        text_merged_empty from.device_version,
        text_merged_empty from.user_defined_name,
        text_merged_empty from.camera_type,
        merge_info_new [] from.info h,
      )
      refl

copy_shape_lem : (to from : ImageShape) → copy_shape to from ≡ from
unfolding copy_shape merge_shape
copy_shape_lem to from =
    simp (int_merged_zero from.width, int_merged_zero from.height, int_merged_zero from.channel)
      refl

-- A shape that counts is there, and one that does not count is the default one, if it is there: the
-- state of every request that was made, copied or cleared.
abbrev pub IsKept : RequestMessage → Type 0
IsKept m =
    ((m.has_image_shape ≡ true) × (s : ImageShape) × (m.image_shape ≡ some s))
    ⊎ ((m.has_image_shape ≡ false) × ((m.image_shape ≡ none) ⊎ (m.image_shape ≡ some zero_shape)))

abbrev cleared : Option ImageShape → RequestMessage
cleared o = record { sn = []; has_image_shape = false; image_shape = o }

abbrev IsSpare : Option ImageShape → Type 0
IsSpare o = (o ≡ none) ⊎ (o ≡ some zero_shape)

clear_request_lem :
    (m : RequestMessage)
    → IsKept m
    → (o : Option ImageShape) × IsSpare o × (clear_request m ≡ ok (cleared o))
unfolding clear_request
clear_request_lem m k = elim k [
  | inl (has, s, q) ↦ (some zero_shape, inr refl, simp (has, q) refl)
  | inr (has, spare) ↦ (m.image_shape, spare, rw has refl)
]

merged_spare : (o : Option ImageShape) (s : ImageShape) → IsSpare o → merged_shape o s ≡ s
unfolding merge_shape copy_shape
merged_spare o s spare = elim spare [
  | inl e ↦ rw e refl
  | inr e ↦ rw e (copy_shape_lem zero_shape s)
]

merge_cleared :
    (o : Option ImageShape) (from : RequestMessage)
    → IsSpare o
    → IsKept from
    → (m : RequestMessage) × (merge_request (cleared o) from ≡ ok m)
      × IsKept m
      × (request_of m ≡ request_of from)
unfolding merge_request request_of shape_read
merge_cleared o from spare k = elim k [
  | inl (has, s, q) ↦ (
    record { sn = from.sn; has_image_shape = true; image_shape = some s },
    simp (has, q, merged_spare o s spare, text_merged_empty from.sn) refl,
    inl (refl, s, refl),
    simp (has, q) refl,
  )
  | inr (has, old) ↦ (
    record { sn = from.sn; has_image_shape = false; image_shape = o },
    simp (has, text_merged_empty from.sn) refl,
    inr (refl, spare),
    simp has refl,
  )
]

-- `CopyFrom` of a request never goes through a shape that is not there, from and to requests in which
-- a shape that counts is there and one that does not is absent or cleared. It leaves such a
-- request, which the handler of `GetImage` reads like the other one, whatever there was before.
pub copy_request_lem :
    (to from : RequestMessage)
    → IsKept to
    → IsKept from
    → (m : RequestMessage) × (copy_request to from ≡ ok m)
      × IsKept m
      × (request_of m ≡ request_of from)
unfolding copy_request
copy_request_lem to from kt kf =
    let (o, spare, e) = clear_request_lem to kt in rw e (merge_cleared o from spare kf)
