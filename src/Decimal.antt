-- ===== src/Decimal.antt =====
-- What `%d` of `snprintf` prints of a number that is not negative.
use grpc_cplugplug_example.Base.{
  ℕ, zero, suc, ◌+◌, ◌-◌, ◌*◌, ◌/◌, ◌%◌, ◌<◌, ◌≤◌, ◌≡◌, refl, List, [], ◌∷◌, ◌++◌, ltb,
  if◌then◌else◌, arith, Bool-cases, inl, inr,
}

digits : ℕ → ℕ → List ℕ
digits zero n = []
digits (suc fuel) n =
    let front = digits fuel (n / 10) in
    if ltb n 10 then (b'0' + n) ∷ [] else front ++ ((b'0' + n % 10) ∷ [])

-- The number of digits is at most the number itself and one more.
unfoldable pub decimal : ℕ → List ℕ
unfolding digits
decimal n = digits (suc n) n

-- Reading digits behind a number that has been read.
unfoldable pub read_digits : ℕ → List ℕ → ℕ
read_digits acc [] = acc
read_digits acc (d ∷ ds) = read_digits (acc * 10 + (d - b'0')) ds

abbrev pub AreDigits : List ℕ → Type 0
AreDigits [] = Unit {0}
AreDigits (d ∷ ds) = (b'0' ≤ d) × (d ≤ b'9') × AreDigits ds

AreDigits-append :
    (xs : List ℕ) (d : ℕ) → AreDigits xs → b'0' ≤ d → d ≤ b'9' → AreDigits (xs ++ (d ∷ []))
AreDigits-append [] d h p q = (p, q, tt)
AreDigits-append (x ∷ xs) d h p q = (h.0, h.1, AreDigits-append xs d h.2 p q)

read_digits-append :
    (acc : ℕ) (xs : List ℕ) (d : ℕ)
    → read_digits acc (xs ++ (d ∷ [])) ≡ read_digits acc xs * 10 + (d - b'0')
unfolding read_digits
read_digits-append acc [] d = refl
read_digits-append acc (x ∷ xs) d = read_digits-append (acc * 10 + (x - b'0')) xs d

digits-AreDigits : (fuel n : ℕ) → AreDigits (digits fuel n)
unfolding digits
digits-AreDigits zero n = tt
digits-AreDigits (suc fuel) n = elim (Bool-cases (ltb n 10)) [
  | inl h ↦ rw h (omega arith, ground arith, tt)
  | inr h ↦ rw h (
      AreDigits-append (digits fuel (n / 10)) (b'0' + n % 10) (digits-AreDigits fuel (n / 10))
        (omega arith) (omega arith))
]

read_digits-digits : (fuel n : ℕ) → n < fuel → read_digits 0 (digits fuel n) ≡ n
unfolding digits
read_digits-digits zero n h = absurd (omega arith)
read_digits-digits (suc fuel) n h = elim (Bool-cases (ltb n 10)) [
  | inl small ↦ rw small (unfold read_digits in ground arith)
  | inr large ↦
      rw (large, read_digits-append 0 (digits fuel (n / 10)) (b'0' + n % 10))
        (let big : 10 ≤ n = ground arith in
          omega (arith, read_digits-digits fuel (n / 10) (omega arith)))
]

pub decimal-AreDigits : (n : ℕ) → AreDigits (decimal n)
unfolding decimal
decimal-AreDigits n = digits-AreDigits (suc n) n

pub read_digits-decimal : (n : ℕ) → read_digits 0 (decimal n) ≡ n
unfolding decimal
read_digits-decimal n = read_digits-digits (suc n) n (omega arith)
