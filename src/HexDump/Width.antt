-- ===== src/HexDump/Width.antt =====
-- How long the lines are, and how many.
use grpc_cplugplug_example.Base.{
  ℕ, zero, suc, ◌+◌, ◌-◌, ◌*◌, ◌/◌, ◌%◌, ◌^◌, ◌≤◌, ◌≡◌, refl, List, [], ◌∷◌, ◌++◌, take, drop,
  length, length-append, length-take, length-drop, arith, Returns,
}
use grpc_cplugplug_example.Base.Int.{pos}
use grpc_cplugplug_example.HexDump.{
  hex8, hex_part, padding, text_part, space, line, lines, hex_dump,
}

length-hex_part : (xs : List ℕ) → length (hex_part xs) ≡ 3 * length xs
unfolding hex_part
length-hex_part [] = refl
length-hex_part (x ∷ xs) = omega (arith, length-hex_part xs)

length-padding : (n : ℕ) → length (padding n) ≡ 3 * n
unfolding padding
length-padding zero = refl
length-padding (suc n) = omega (arith, length-padding n)

length-text_part : (xs : List ℕ) → length (text_part xs) ≡ length xs
unfolding text_part
length-text_part [] = refl
length-text_part (x ∷ xs) = omega (arith, length-text_part xs)

length-hex8 : (c : ℕ) → length (hex8 c) ≡ 8
unfolding hex8
length-hex8 c = refl

pub length-line :
    (c : ℕ) (chunk : List ℕ) → length chunk ≤ 16 → length (line c chunk) ≡ 58 + length chunk
unfolding line
length-line c chunk h =
    let rest = padding (16 - length chunk) ++ (space ∷ text_part chunk) in
    omega (
      arith,
      length-append (hex8 c) (space ∷ (hex_part chunk ++ rest)),
      length-hex8 c,
      length-append (hex_part chunk) rest,
      length-hex_part chunk,
      length-append (padding (16 - length chunk)) (space ∷ text_part chunk),
      length-padding (16 - length chunk),
      length-text_part chunk,
    )

-- Each line, with its terminating NUL, fits into the 100 bytes of `rgbLine`.
abbrev pub Fit : List (List ℕ) → Type 0
Fit [] = Unit {0}
Fit (l ∷ ls) = (length l + 1 ≤ 75) × Fit ls

lines-Fit : (fuel c : ℕ) (xs : List ℕ) → Fit (lines fuel c xs)
unfolding lines
lines-Fit fuel c [] = tt
lines-Fit zero c (x ∷ xs) = tt
lines-Fit (suc fuel) c (x ∷ xs) = (
  omega (
    arith,
    length-line c (take 16 (x ∷ xs)) (omega (arith, length-take 16 (x ∷ xs))),
    length-take 16 (x ∷ xs),
  ),
  lines-Fit fuel ((c + 1) % 2 ^ 32) (drop 16 (x ∷ xs)),
)

length-lines :
    (fuel c : ℕ) (xs : List ℕ) → length xs ≤ fuel → length (lines fuel c xs) ≡ (length xs + 15) / 16
unfolding lines
length-lines fuel c [] h = refl
length-lines zero c (x ∷ xs) h = absurd (omega arith)
length-lines (suc fuel) c (x ∷ xs) h = omega (
  arith,
  length-drop 16 (x ∷ xs),
  length-lines fuel ((c + 1) % 2 ^ 32) (drop 16 (x ∷ xs)) (omega (arith, length-drop 16 (x ∷ xs))),
)

-- `hex_dump` of the first `n` bytes of a buffer that has them reads inside of the buffer and
-- prints one line for each 16 bytes that are begun, and each line with its NUL takes at most 75 of
-- the 100 bytes of the line buffer.
pub hex_dump-Fit :
    (buffer : List ℕ) (n : ℕ)
    → n ≤ length buffer
    → Returns (λ ls. Fit ls × (length ls ≡ (n + 15) / 16)) (hex_dump buffer (pos n))
unfolding hex_dump
hex_dump-Fit buffer n h =
    ground
      (arith, lines-Fit n 0 (take n buffer), length-lines n 0 (take n buffer), length-take n buffer)
