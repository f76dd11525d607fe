-- ===== src/Wire/Fields.antt =====
-- The fields that are written and read again, and the sizes announced for them.
use mathlib.Core.Option
use mathlib.Core.Option.{some_inj}
use grpc_cplugplug_example.Base.{
  ℕ, ◌≡◌, refl, ap, sym, ◌∙◌, Option, none, some, List, [], ◌∷◌, ◌++◌, append_assoc, append-nil,
  length, if◌then◌else◌, Option-cases, Bool-cases, inl, inr,
}
use grpc_cplugplug_example.Base.Int.{ℤ, nonzero}
use grpc_cplugplug_example.Wire.{Field, chunk, varint, Codec}
use grpc_cplugplug_example.Wire.Written.{write_text, text_size, write_int, int_size}
use grpc_cplugplug_example.Wire.Stored.{store_all, parse}
use grpc_cplugplug_example.Wire.Laws.{IsInt32, IsShort, IsLow, Emits, Laws}

-- The fields of a text and of a number that may be left out.
abbrev pub text_fields : ℕ → List ℕ → List Field
text_fields n [] = []
text_fields n s = chunk n s ∷ []

abbrev pub int_fields : ℕ → ℤ → List Field
int_fields n v = if nonzero v then varint n v ∷ [] else []

module _ (codec : Codec) where
  pub Emits-nil : Emits codec [] []
  Emits-nil rest = same (codec.fields rest)
    where
      same : (o : Option (List Field)) → o ≡ Option.map (λ gs. gs) o
      same none = refl
      same (some fs) = refl

  pub Emits-append :
      (xs bs : List ℕ) (fs gs : List Field)
      → Emits codec xs fs
      → Emits codec bs gs
      → Emits codec (xs ++ bs) (fs ++ gs)
  Emits-append xs bs fs gs h k rest =
      ap codec.fields (append_assoc xs bs rest)
      ∙ h (bs ++ rest)
      ∙ ap (Option.map (λ l. fs ++ l)) (k rest)
      ∙ both (codec.fields rest)
    where
      both :
          (o : Option (List Field))
          → Option.map (λ l. fs ++ l) (Option.map (λ l. gs ++ l) o)
            ≡ Option.map (λ l. (fs ++ gs) ++ l) o
      both none = refl
      both (some l) = ap some (sym (append_assoc fs gs l))

  pub store_all-append :
      {M : Type 0} (store : M → Field → Option M) (m m' : M) (fs gs : List Field)
      → store_all codec store m fs ≡ some m'
      → store_all codec store m (fs ++ gs) ≡ store_all codec store m' gs
  unfolding store_all Option.bind
  store_all-append store m m' [] gs e = ap (λ x. store_all codec store x gs) (some_inj.0 e)
  store_all-append store m m' (f ∷ fs) gs e = elim (Option-cases (store m f)) [
    | inl q ↦ absurd (cc (simp q at e))
    | inr (x, q) ↦ rw q (store_all-append store x m' fs gs (simp q at e))
  ]

  module _ (laws : Laws codec) where
    -- A message that was written is read as its fields.
    pub parse-Emits :
        {M : Type 0} (store : M → Field → Option M) (m : M) (bs : List ℕ) (fs : List Field)
        → Emits codec bs fs
        → parse codec store m bs ≡ store_all codec store m fs
    unfolding parse Option.bind
    parse-Emits store m bs fs h =
        let q : codec.fields bs ≡ some fs =
          ap codec.fields (sym (append-nil bs))
          ∙ h []
          ∙ ap (Option.map (λ gs. fs ++ gs)) laws.no_fields
          ∙ ap some (append-nil fs) in
        rw q refl

    pub write_text-Emits :
        (n : ℕ) (s : List ℕ)
        → IsLow n
        → IsShort s
        → Emits codec (write_text codec n s) (text_fields n s)
    unfolding write_text
    write_text-Emits n [] low short = Emits-nil
    write_text-Emits n (c ∷ s) low short = laws.read_string n (c ∷ s) low short

    pub write_int-Emits :
        (n : ℕ) (v : ℤ) → IsLow n → IsInt32 v → Emits codec (write_int codec n v) (int_fields n v)
    unfolding write_int
    write_int-Emits n v low range = elim (Bool-cases (nonzero v)) [
      | inl e ↦ rw e (laws.read_int32 n v low range)
      | inr e ↦ rw e Emits-nil
    ]

    pub text_size-write_text :
        (n : ℕ) (s : List ℕ)
        → IsLow n
        → IsShort s
        → text_size codec s ≡ length (write_text codec n s)
    unfolding text_size write_text
    text_size-write_text n [] low short = refl
    text_size-write_text n (c ∷ s) low short = sym (laws.string_size n (c ∷ s) low short)

    pub int_size-write_int :
        (n : ℕ) (v : ℤ) → IsLow n → IsInt32 v → int_size codec v ≡ length (write_int codec n v)
    unfolding int_size write_int
    int_size-write_int n v low range = elim (Bool-cases (nonzero v)) [
      | inl e ↦ rw e (sym (laws.int32_size n v low range))
      | inr e ↦ rw e refl
    ]
