-- ===== src/Text.antt =====
-- The string functions of src/utils.cpp. A text is the list of its bytes.
pub mod Compare
pub mod Join
use grpc_cplugplug_example.Base.{
  ℕ, ◌-◌, ◌%◌, Bool, true, false, not, ◌&&◌, Option, none, some, List, [], ◌∷◌, ◌++◌, map, leb,
  ◌==◌, if◌then◌else◌, Result, ok, fault, bad_access,
}
use grpc_cplugplug_example.Base.Int.{ℤ, pos, ◌-ℤ◌}

-- `toupper` of the C locale.
unfoldable pub toupper : ℕ → ℕ
toupper c = if leb b'a' c && leb c b'z' then c - 32 else c

unfoldable pub to_upper : List ℕ → List ℕ
to_upper input = map toupper input

-- The bytes that a C string function sees of a text: those in front of the first NUL.
unfoldable pub c_str : List ℕ → List ℕ
c_str [] = []
c_str (c ∷ s) = if c == 0 then [] else c ∷ c_str s

-- Each round reads one byte of both, where the end of a list is the terminating NUL.
unfoldable pub local_stricmp : List ℕ → List ℕ → ℤ
local_stricmp [] [] = pos 0
local_stricmp [] (d ∷ b) = pos 0 -ℤ pos (toupper d)
local_stricmp (c ∷ a) [] = pos (toupper c) -ℤ pos 0
local_stricmp (c ∷ a) (d ∷ b) =
    if toupper c == toupper d && not (toupper c == 0)
    then local_stricmp a b
    else pos (toupper c) -ℤ pos (toupper d)

-- `sep` where the code is not built for Windows.
abbrev pub sep : ℕ
sep = b'/'

-- `p1[p1.length() - 1]`, which reads outside of an empty text.
unfoldable pub last_char : List ℕ → Result ℕ
last_char [] = fault bad_access
last_char (c ∷ []) = ok c
last_char (c ∷ d ∷ s) = last_char (d ∷ s)

unfoldable pub join_after : List ℕ → List ℕ → Result ℕ → Result (List ℕ)
join_after p1 p2 (ok c) = ok (if not (c == sep) then (p1 ++ (sep ∷ [])) ++ p2 else p1 ++ p2)
join_after p1 p2 (fault e) = fault e

unfoldable pub path_join : List ℕ → List ℕ → Result (List ℕ)
path_join p1 p2 = join_after p1 p2 (last_char p1)
