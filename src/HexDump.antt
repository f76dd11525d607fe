-- ===== src/HexDump.antt =====
-- `hex_dump` of src/utils.cpp: the lines that it prints.
pub mod Width
pub mod Decode
mod Tests
use grpc_cplugplug_example.Base.{
  ℕ, zero, suc, ◌+◌, ◌-◌, ◌*◌, ◌/◌, ◌%◌, ◌^◌, ◌||◌, List, [], ◌∷◌, ◌++◌, map, take, drop, length,
  ltb, leb, if◌then◌else◌, Result, ok, fault, bad_access,
}
use grpc_cplugplug_example.Base.Int.{ℤ, pos, negsuc}

abbrev pub space : ℕ
space = b' '

-- `rgbDigits[k]`
unfoldable pub digit : ℕ → ℕ
digit k = if ltb k 10 then b'0' + k else b'a' + (k - 10)

-- What `%8.8x` prints of a 32-bit number.
unfoldable pub hex8 : ℕ → List ℕ
hex8 c = map (λ k. digit (c / 16 ^ k % 16)) (7 ∷ 6 ∷ 5 ∷ 4 ∷ 3 ∷ 2 ∷ 1 ∷ 0 ∷ [])

-- The first loop of a line: two digits and a space for each byte.
unfoldable pub hex_part : List ℕ → List ℕ
hex_part [] = []
hex_part (x ∷ xs) = digit (x / 16) ∷ digit (x % 16) ∷ space ∷ hex_part xs

-- The second loop: three spaces for each byte that is missing.
unfoldable pub padding : ℕ → List ℕ
padding zero = []
padding (suc n) = space ∷ space ∷ space ∷ padding n

-- The third loop: the printable bytes as they are, and a dot for each other one.
unfoldable pub text_part : List ℕ → List ℕ
text_part [] = []
text_part (x ∷ xs) = (if ltb x 32 || ltb 126 x then b'.' else x) ∷ text_part xs

-- A line. The first byte of the hex part overwrites the second of the two spaces of `"%8.8x  "`.
unfoldable pub line : ℕ → List ℕ → List ℕ
line c chunk =
    hex8 c
    ++ (space ∷ (hex_part chunk ++ (padding (16 - length chunk) ++ (space ∷ text_part chunk))))

-- The outer loop, with the bytes that are left; each round takes at most 16 of them.
unfoldable pub lines : ℕ → ℕ → List ℕ → List (List ℕ)
lines fuel c [] = []
lines zero c (x ∷ xs) = []
lines (suc fuel) c (x ∷ xs) =
    line c (take 16 (x ∷ xs)) ∷ lines fuel ((c + 1) % 2 ^ 32) (drop 16 (x ∷ xs))

-- A negative length makes one line with no byte: the first count is the length itself.
unfoldable pub hex_dump : List ℕ → ℤ → Result (List (List ℕ))
hex_dump buffer (pos n) =
    if leb n (length buffer) then ok (lines n 0 (take n buffer)) else fault bad_access
hex_dump buffer (negsuc n) = ok (line 0 [] ∷ [])
