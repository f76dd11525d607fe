-- ===== src/Random/Range.antt =====
-- Which numbers `rand_int_r` gives.
use grpc_cplugplug_example.Base.{
  ℕ, ◌+◌, ◌%◌, ◌≡◌, ◌≢◌, ◌-◌, true, false, ◌⊎◌, inl, inr, Bool-cases, fault, overflow,
  zero_division, Result, ok, arith, Returns,
}
use grpc_cplugplug_example.Base.Int.{
  ℤ, pos, negsuc, pos_part, neg_part, ◌≤ℤ◌, ◌+ℤ◌, ◌-ℤ◌, ltb_ℤ, eq_ℤ,
}
use grpc_cplugplug_example.Random.{rand_int_r, int_max, int_value, remainder, pick}

-- With the smaller bound first, the larger one below INT_MAX and the width of the range an `int`,
-- `rand_int_r` does not fault and gives a number from the one bound to the other, both included.
pub rand_int_r_range :
    (r : ℕ) (a b : ℤ)
    → ltb_ℤ a b ≡ true
    → negsuc int_max ≤ℤ a
    → b ≤ℤ pos (int_max - 1)
    → b -ℤ a ≤ℤ pos (int_max - 1)
    → Returns (λ x. (a ≤ℤ x) × (x ≤ℤ b)) (rand_int_r r a b)
unfolding rand_int_r pick int_value remainder
rand_int_r_range r (pos a) (pos b) h p q w = ground arith
rand_int_r_range r (pos a) (negsuc b) h p q w = ground arith
rand_int_r_range r (negsuc a) (pos b) h p q w = ground arith
rand_int_r_range r (negsuc a) (negsuc b) h p q w = ground arith

int_value_cases : (a : ℤ) → (int_value a ≡ ok a) ⊎ (int_value a ≡ fault overflow)
unfolding int_value
int_value_cases a = ground arith

remainder_cases :
    (r : ℕ) (d : ℤ)
    → ((m : ℕ) × (remainder r d ≡ ok (pos m))) ⊎ (remainder r d ≡ fault zero_division)
unfolding remainder
remainder_cases r d = elim (Bool-cases (eq_ℤ d (pos 0))) [
  | inl z ↦ inr (rw z)
  | inr nz ↦ inl (r % (pos_part d + neg_part d), rw nz)
]

low-le : (m : ℕ) (low : ℤ) → low ≤ℤ pos m +ℤ low
low-le m (pos n) = ground arith
low-le m (negsuc n) = ground arith

-- A number that is picked is not below the lower end.
abbrev AtLeast : ℤ → Result ℤ → Type 0
AtLeast low (ok x) = low ≤ℤ x
AtLeast low (fault e) = Unit {0}

pick-AtLeast : (r : ℕ) (low hi : ℤ) → AtLeast low (pick r low hi)
unfolding pick
pick-AtLeast r low hi = elim (int_value_cases (hi -ℤ low)) [
  | inr bad ↦ rw bad tt
  | inl good ↦ elim (remainder_cases r (hi -ℤ low)) [
    | inr bad ↦ rw (good, bad) tt
    | inl (m, e) ↦ elim (int_value_cases (pos m +ℤ low)) [
      | inr bad ↦ rw (good, e, bad) tt
      | inl fine ↦ rw (good, e, fine) (low-le m low)
    ]
  ]
]

above-ne : (b : ℤ) (m : Result ℤ) → AtLeast (b +ℤ pos 1) m → m ≢ ok b
above-ne (pos n) (ok x) h e = ground arith
above-ne (negsuc n) (ok x) h e = ground arith
above-ne b (fault f) h e = cc

-- With the bounds equal or exchanged `rand_int_r` never gives `max_num`.
pub rand_int_r_excludes_max : (r : ℕ) (a b : ℤ) → ltb_ℤ a b ≡ false → rand_int_r r a b ≢ ok b
unfolding rand_int_r
rand_int_r_excludes_max r a b h = elim (int_value_cases (b +ℤ pos 1)) [
  | inr bad ↦ rw bad (λ e. cc)
  | inl good ↦ rw (good, h) (above-ne b (pick r (b +ℤ pos 1) a) (pick-AtLeast r (b +ℤ pos 1) a))
]
