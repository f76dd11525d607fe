-- ===== src/Base/Int.antt =====
-- Signed integers over the native numbers: the C++ `int`, as the value that it stands for.
use grpc_cplugplug_example.Base.{
  ℕ, zero, suc, ◌+◌, ◌-◌, ◌%◌, ◌^◌, ◌≤◌, ◌≡◌, ◌≢◌, ◌↔◌, ◌⊎◌, inl, inr, Bool-cases, Bool, true,
  false, arith, ltb, leb, ◌==◌, if◌then◌else◌,
}

-- `negsuc n` is -(n + 1).
pub data ℤ : Type 0 where
  pos : ℕ → ℤ
  negsuc : ℕ → ℤ

abbrev pub pos_part : ℤ → ℕ
pos_part (pos n) = n
pos_part (negsuc n) = 0

abbrev pub neg_part : ℤ → ℕ
neg_part (pos n) = 0
neg_part (negsuc n) = suc n

-- a - b, as an integer.
abbrev pub sub_ℕ : ℕ → ℕ → ℤ
sub_ℕ a b = if leb b a then pos (a - b) else negsuc (b - a - 1)

infixl 65 ◌+ℤ◌ ◌-ℤ◌
infix 50 ◌≤ℤ◌
abbrev pub ◌+ℤ◌ : ℤ → ℤ → ℤ
a +ℤ b = sub_ℕ (pos_part a + pos_part b) (neg_part a + neg_part b)

abbrev pub ◌-ℤ◌ : ℤ → ℤ → ℤ
a -ℤ b = sub_ℕ (pos_part a + neg_part b) (neg_part a + pos_part b)

abbrev pub ◌≤ℤ◌ : ℤ → ℤ → Type 0
a ≤ℤ b = pos_part a + neg_part b ≤ pos_part b + neg_part a

abbrev pub ltb_ℤ : ℤ → ℤ → Bool
ltb_ℤ a b = ltb (pos_part a + neg_part b) (pos_part b + neg_part a)

abbrev pub eq_ℤ : ℤ → ℤ → Bool
eq_ℤ a b = pos_part a + neg_part b == pos_part b + neg_part a

-- `if (ret)`
abbrev pub nonzero : ℤ → Bool
nonzero (pos zero) = false
nonzero (pos (suc n)) = true
nonzero (negsuc n) = true

-- `(int)` of a 32-bit unsigned number, and back.
abbrev pub to_int32 : ℕ → ℤ
to_int32 w = if ltb w (2 ^ 31) then pos w else negsuc (2 ^ 32 - w - 1)

abbrev pub to_uint32 : ℤ → ℕ
to_uint32 (pos n) = n % 2 ^ 32
to_uint32 (negsuc n) = 2 ^ 32 - 1 - n % 2 ^ 32

pub nonzero_iff : (a : ℤ) → (nonzero a ≡ false) ↔ (a ≡ pos 0)
nonzero_iff (pos zero) = ground arith
nonzero_iff (pos (suc n)) = ground arith
nonzero_iff (negsuc n) = ground arith

pub eq_ℤ_iff : (a b : ℤ) → (eq_ℤ a b ≡ true) ↔ (a ≡ b)
eq_ℤ_iff (pos a) (pos b) = ground arith
eq_ℤ_iff (pos a) (negsuc b) = ground arith
eq_ℤ_iff (negsuc a) (pos b) = ground arith
eq_ℤ_iff (negsuc a) (negsuc b) = ground arith

-- To split on a comparison of two integers.
pub eq_ℤ-cases : (a b : ℤ) → ((eq_ℤ a b ≡ true) × (a ≡ b)) ⊎ ((eq_ℤ a b ≡ false) × (a ≢ b))
eq_ℤ-cases a b = elim (Bool-cases (eq_ℤ a b)) [
  | inl e ↦ inl (e, (eq_ℤ_iff a b).0 e)
  | inr ne ↦ inr (ne, λ e. cc (ne, (eq_ℤ_iff a b).1 e))
]
