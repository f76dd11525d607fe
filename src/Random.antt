-- ===== src/Random.antt =====
-- `rand_int_r` of src/utils.cpp. What `rand()` returns is an argument.
pub mod Range
use grpc_cplugplug_example.Base.{
  ℕ, ◌+◌, ◌-◌, ◌%◌, ◌^◌, Bool, ◌&&◌, not, leb, ◌==◌, if◌then◌else◌, Result, ok, fault, overflow,
  zero_division, ◌>>=◌,
}
use grpc_cplugplug_example.Base.Int.{ℤ, pos, negsuc, pos_part, neg_part, ◌+ℤ◌, ◌-ℤ◌, ltb_ℤ, eq_ℤ}

abbrev pub int_max : ℕ
int_max = 2 ^ 31 - 1

-- The value of an `int` expression, where it has one.
unfoldable pub int_value : ℤ → Result ℤ
int_value a =
    if leb (pos_part a) int_max && leb (neg_part a) (int_max + 1) then ok a else fault overflow

-- `r % d` of C++ for `r` not negative.
unfoldable pub remainder : ℕ → ℤ → Result ℤ
remainder r d =
    if eq_ℤ d (pos 0) then fault zero_division else ok (pos (r % (pos_part d + neg_part d)))

-- `(rand() % (hi_num - low_num)) + low_num`
unfoldable pub pick : ℕ → ℤ → ℤ → Result ℤ
pick r low_num hi_num = do
  d ← int_value (hi_num -ℤ low_num)
  m ← remainder r d
  int_value (m +ℤ low_num)

unfoldable pub rand_int_r : ℕ → ℤ → ℤ → Result ℤ
rand_int_r r min_num max_num = do
  above ← int_value (max_num +ℤ pos 1)
  if ltb_ℤ min_num max_num then pick r min_num above else pick r above min_num
