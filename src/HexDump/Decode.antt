-- ===== src/HexDump/Decode.antt =====
-- Reading the bytes back from the lines of `hex_dump`.
use grpc_cplugplug_example.Base.{
  ℕ, zero, suc, ◌+◌, ◌-◌, ◌*◌, ◌/◌, ◌%◌, ◌^◌, ◌≤◌, ◌<◌, ◌≡◌, refl, ap₂, ◌∙◌, List, [], ◌∷◌, ◌++◌,
  take, drop, length, length-take, length-drop, take-append-drop, ltb, ◌==◌, false, if◌then◌else◌,
  arith, Returns,
}
use grpc_cplugplug_example.Base.Int.{pos}
use grpc_cplugplug_example.HexDump.{
  digit, hex8, hex_part, padding, text_part, space, line, lines, hex_dump,
}

unfoldable pub undigit : ℕ → ℕ
undigit d = if ltb d b'a' then d - b'0' else d - b'a' + 10

-- The bytes of a hex column, up to the first byte that is missing.
unfoldable pub decode_columns : List ℕ → List ℕ
decode_columns (a ∷ b ∷ c ∷ r) =
    if a == space then [] else (undigit a * 16 + undigit b) ∷ decode_columns r
decode_columns _ = []

unfoldable pub decode : List (List ℕ) → List ℕ
decode [] = []
decode (l ∷ ls) = decode_columns (drop 9 l) ++ decode ls

abbrev pub AreBytes : List ℕ → Type 0
AreBytes [] = Unit {0}
AreBytes (x ∷ xs) = (x < 256) × AreBytes xs

undigit-digit : (k : ℕ) → k < 16 → (undigit (digit k) ≡ k) × ((digit k == space) ≡ false)
unfolding undigit digit
undigit-digit k h = ground arith

decode-hex_part :
    (xs rest : List ℕ)
    → AreBytes xs
    → decode_columns rest ≡ []
    → decode_columns (hex_part xs ++ rest) ≡ xs
unfolding decode_columns hex_part
decode-hex_part [] rest h e = e
decode-hex_part (x ∷ xs) rest h e =
    ground (arith, undigit-digit (x / 16), undigit-digit (x % 16), decode-hex_part xs rest h.1 e)

decode-space : (s : List ℕ) → decode_columns (space ∷ s) ≡ []
unfolding decode_columns
decode-space [] = refl
decode-space (a ∷ []) = refl
decode-space (a ∷ b ∷ s) = refl

decode-padding : (n : ℕ) (s : List ℕ) → decode_columns (padding n ++ (space ∷ s)) ≡ []
unfolding padding
decode-padding zero s = decode-space s
decode-padding (suc n) s = decode-space _

decode-line :
    (c : ℕ) (chunk : List ℕ) → AreBytes chunk → decode_columns (drop 9 (line c chunk)) ≡ chunk
unfolding line hex8
decode-line c chunk h =
    decode-hex_part chunk (padding (16 - length chunk) ++ (space ∷ text_part chunk)) h
      (decode-padding (16 - length chunk) (text_part chunk))

take-AreBytes : (n : ℕ) (xs : List ℕ) → AreBytes xs → AreBytes (take n xs)
take-AreBytes zero xs h = tt
take-AreBytes (suc n) [] h = tt
take-AreBytes (suc n) (x ∷ xs) h = (h.0, take-AreBytes n xs h.1)

drop-AreBytes : (n : ℕ) (xs : List ℕ) → AreBytes xs → AreBytes (drop n xs)
drop-AreBytes zero xs h = h
drop-AreBytes (suc n) [] h = tt
drop-AreBytes (suc n) (x ∷ xs) h = drop-AreBytes n xs h.1

decode-lines :
    (fuel c : ℕ) (xs : List ℕ) → length xs ≤ fuel → AreBytes xs → decode (lines fuel c xs) ≡ xs
unfolding lines decode
decode-lines fuel c [] h b = refl
decode-lines zero c (x ∷ xs) h b = absurd (omega arith)
decode-lines (suc fuel) c (x ∷ xs) h b =
    ap₂ ◌++◌ (decode-line c (take 16 (x ∷ xs)) (take-AreBytes 16 (x ∷ xs) b)) (
      decode-lines fuel ((c + 1) % 2 ^ 32) (drop 16 (x ∷ xs))
        (omega (arith, length-drop 16 (x ∷ xs))) (drop-AreBytes 16 (x ∷ xs) b))
    ∙ take-append-drop 16 (x ∷ xs)

-- From the lines that `hex_dump` prints of the first `n` bytes of a buffer that has them, exactly
-- these bytes can be read back: none is lost, doubled or moved.
pub decode-hex_dump :
    (buffer : List ℕ) (n : ℕ)
    → n ≤ length buffer
    → AreBytes buffer
    → Returns (λ ls. decode ls ≡ take n buffer) (hex_dump buffer (pos n))
unfolding hex_dump
decode-hex_dump buffer n h b =
    ground (arith, decode-lines n 0 (take n buffer), length-take n buffer, take-AreBytes n buffer b)
