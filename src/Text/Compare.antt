-- ===== src/Text/Compare.antt =====
-- `local_stricmp` and `to_upper` as a comparison of texts without regard to case.
use grpc_cplugplug_example.Base.{
  ℕ, ◌≡◌, ◌≢◌, ◌↔◌, refl, ap₂, List, [], ◌∷◌, ◌==◌, arith, Bool-cases, inl, inr,
}
use grpc_cplugplug_example.Base.Int.{pos, ◌-ℤ◌}
use grpc_cplugplug_example.Text.{toupper, to_upper, c_str, local_stricmp}

toupper_idem : (c : ℕ) → toupper (toupper c) ≡ toupper c
unfolding toupper
toupper_idem c = ground arith

pub to_upper_idem : (s : List ℕ) → to_upper (to_upper s) ≡ to_upper s
unfolding to_upper
to_upper_idem [] = refl
to_upper_idem (c ∷ s) = cc (toupper_idem c, to_upper_idem s)

-- No byte of the text is NUL.
abbrev pub NoNul : List ℕ → Type 0
NoNul [] = Unit {0}
NoNul (c ∷ s) = (c ≢ 0) × NoNul s

pub c_str-NoNul : (s : List ℕ) → NoNul (c_str s)
unfolding c_str
c_str-NoNul [] = tt
c_str-NoNul (c ∷ s) = ground (arith, c_str-NoNul s)

toupper_pos : (c : ℕ) → c ≢ 0 → toupper c ≢ 0
unfolding toupper
toupper_pos c h = ground arith

cons_tail : {c d : ℕ} {a b : List ℕ} → c ∷ a ≡ d ∷ b → a ≡ b
cons_tail e = cc

-- On texts without NUL `local_stricmp` gives 0 exactly when the upper-case forms of the texts are
-- equal.
pub local_stricmp_iff :
    (a b : List ℕ) → NoNul a → NoNul b → (local_stricmp a b ≡ pos 0) ↔ (to_upper a ≡ to_upper b)
unfolding local_stricmp to_upper
local_stricmp_iff [] [] ha hb = (λ _. refl, λ _. refl)
local_stricmp_iff [] (d ∷ b) ha hb = (λ e. absurd (ground (arith, toupper_pos d)), λ e. cc)
local_stricmp_iff (c ∷ a) [] ha hb = (λ e. absurd (ground (arith, toupper_pos c)), λ e. cc)
local_stricmp_iff (c ∷ a) (d ∷ b) ha hb =
    let ih = local_stricmp_iff a b ha.1 hb.1 in
    elim (Bool-cases (toupper c == toupper d)) [
      | inl same ↦ (
        λ e. ap₂ ◌∷◌ (ground arith) (ih.0 (ground (arith, toupper_pos c))),
        λ e. ground (arith, toupper_pos c, ih.1 (cons_tail e)),
      )
      | inr differ ↦ (λ e. absurd (ground arith), λ e. absurd (ground arith))
    ]

-- With its arguments exchanged `local_stricmp` gives the opposite number.
pub local_stricmp_neg : (a b : List ℕ) → local_stricmp b a ≡ pos 0 -ℤ local_stricmp a b
unfolding local_stricmp
local_stricmp_neg [] [] = refl
local_stricmp_neg [] (d ∷ b) = ground arith
local_stricmp_neg (c ∷ a) [] = ground arith
local_stricmp_neg (c ∷ a) (d ∷ b) = ground (arith, local_stricmp_neg a b)
