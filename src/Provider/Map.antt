-- ===== src/Provider/Map.antt =====
-- The map from serial numbers to devices, as a list of its entries.
use grpc_cplugplug_example.Base.{
  ℕ, ◌+◌, ◌≡◌, refl, Bool, true, false, ◌&&◌, Option, none, some, List, [], ◌∷◌, ◌==◌, ◌↔◌,
  if◌then◌else◌, arith, Bool-cases, inl, inr,
}
use grpc_cplugplug_example.Device.{Device}
use grpc_cplugplug_example.Device.States.{device_held}

-- Equality of `std::string`.
abbrev pub text_eq : List ℕ → List ℕ → Bool
text_eq [] [] = true
text_eq (c ∷ a) (d ∷ b) = c == d && text_eq a b
text_eq _ _ = false

pub text_eq_iff : (a b : List ℕ) → (text_eq a b ≡ true) ↔ (a ≡ b)
text_eq_iff [] [] = (λ e. refl, λ e. refl)
text_eq_iff [] (d ∷ b) = (λ e. cc, λ e. cc)
text_eq_iff (c ∷ a) [] = (λ e. cc, λ e. cc)
text_eq_iff (c ∷ a) (d ∷ b) =
    (λ e. ground (arith, text_eq_iff a b), λ e. ground (arith, text_eq_iff a b))

unfoldable pub lookup {ℓ} : {V : Type ℓ} → List ℕ → List (List ℕ × V) → Option V
lookup k [] = none
lookup k ((j, d) ∷ m) = if text_eq j k then some d else lookup k m

unfoldable pub erase {ℓ} : {V : Type ℓ} → List ℕ → List (List ℕ × V) → List (List ℕ × V)
erase k [] = []
erase k ((j, d) ∷ m) = if text_eq j k then m else (j, d) ∷ erase k m

unfoldable pub insert {ℓ} : {V : Type ℓ} → List ℕ → V → List (List ℕ × V) → List (List ℕ × V)
insert k d [] = (k, d) ∷ []
insert k d ((j, e) ∷ m) = if text_eq j k then (k, d) ∷ m else (j, e) ∷ insert k d m

-- Of every device of the map.
abbrev pub AllDevices : (Device → Type 0) → List (List ℕ × Device) → Type 0
AllDevices P [] = Unit {0}
AllDevices P ((j, d) ∷ m) = P d × AllDevices P m

abbrev pub OfFound : (Device → Type 0) → Option Device → Type 0
OfFound P none = Unit {0}
OfFound P (some d) = P d

-- How often the devices of the map hold a handle.
abbrev pub map_held : List (List ℕ × Device) → ℕ → ℕ
map_held [] h = 0
map_held ((j, d) ∷ m) h = device_held d h + map_held m h

abbrev pub found_held : Option Device → ℕ → ℕ
found_held none h = 0
found_held (some d) h = device_held d h

module _ (P : Device → Type 0) where
  pub lookup-AllDevices :
      (k : List ℕ) (m : List (List ℕ × Device)) → AllDevices P m → OfFound P (lookup k m)
  unfolding lookup
  lookup-AllDevices k [] h = tt
  lookup-AllDevices k ((j, d) ∷ m) h = elim (Bool-cases (text_eq j k)) [
    | inl e ↦ rw e h.0
    | inr e ↦ rw e (lookup-AllDevices k m h.1)
  ]

  pub erase-AllDevices :
      (k : List ℕ) (m : List (List ℕ × Device)) → AllDevices P m → AllDevices P (erase k m)
  unfolding erase
  erase-AllDevices k [] h = tt
  erase-AllDevices k ((j, d) ∷ m) h = elim (Bool-cases (text_eq j k)) [
    | inl e ↦ rw e h.1
    | inr e ↦ rw e (h.0, erase-AllDevices k m h.1)
  ]

  pub insert-AllDevices :
      (k : List ℕ) (d : Device) (m : List (List ℕ × Device))
      → P d
      → AllDevices P m
      → AllDevices P (insert k d m)
  unfolding insert
  insert-AllDevices k d [] p h = (p, tt)
  insert-AllDevices k d ((j, e) ∷ m) p h = elim (Bool-cases (text_eq j k)) [
    | inl q ↦ rw q (p, h.1)
    | inr q ↦ rw q (h.0, insert-AllDevices k d m p h.1)
  ]

pub map_held-erase :
    (k : List ℕ) (m : List (List ℕ × Device)) (h : ℕ)
    → map_held (erase k m) h + found_held (lookup k m) h ≡ map_held m h
unfolding erase lookup
map_held-erase k [] h = refl
map_held-erase k ((j, d) ∷ m) h = elim (Bool-cases (text_eq j k)) [
  | inl e ↦ rw e (omega arith)
  | inr e ↦ rw e (omega (arith, map_held-erase k m h))
]

pub map_held-insert :
    (k : List ℕ) (d : Device) (m : List (List ℕ × Device)) (h : ℕ)
    → map_held (insert k d m) h + found_held (lookup k m) h ≡ map_held m h + device_held d h
unfolding insert lookup
map_held-insert k d [] h = omega arith
map_held-insert k d ((j, e) ∷ m) h = elim (Bool-cases (text_eq j k)) [
  | inl q ↦ rw q (omega arith)
  | inr q ↦ rw q (omega (arith, map_held-insert k d m h))
]

-- Looking up behind an insertion, under the same key and under another one.
pub lookup-insert {ℓ} :
    {V : Type ℓ} (k j : List ℕ) (d : V) (m : List (List ℕ × V))
    → lookup j (insert k d m) ≡ (if text_eq k j then some d else lookup j m)
unfolding lookup insert
lookup-insert k j d [] = refl
lookup-insert k j d ((i, e) ∷ m) =
    ground (arith, text_eq_iff k j, text_eq_iff i k, text_eq_iff i j, lookup-insert k j d m)

-- An erased entry is under no other key that the map does not have.
pub lookup-erase-none {ℓ} :
    {V : Type ℓ} (k j : List ℕ) (m : List (List ℕ × V))
    → lookup j m ≡ none
    → lookup j (erase k m) ≡ none
unfolding lookup erase
lookup-erase-none k j [] e = refl
lookup-erase-none k j ((i, v) ∷ m) e = elim (Bool-cases (text_eq i j)) [
  | inl same ↦ absurd (cc (simp same at e))
  | inr apart ↦
      let rest : lookup j m ≡ none = simp apart at e in
      elim (Bool-cases (text_eq i k)) [
        | inl gone ↦ simp gone rest
        | inr here ↦ simp (here, apart) (lookup-erase-none k j m rest)
      ]
]
