-- ===== src/Buffer.antt =====
-- `buff_t` of src/utils.cpp and src/utils.h: a growable byte buffer.
pub mod Memory
pub mod Valid
pub mod Copy
pub mod Write
pub mod Fault
pub mod Array
mod Tests
use grpc_cplugplug_example.Base.{
  ℕ, ◌+◌, ◌%◌, ◌^◌, Bool, true, false, not, ◌&&◌, Option, none, some, List, [], take, replicate,
  set, ltb, leb, ◌==◌, if◌then◌else◌, Result, ok, fault, size_assertion, bad_access, ◌>>=◌, length,
}
use grpc_cplugplug_example.Base.Int.{ℤ, pos, negsuc, to_int32, to_uint32, ltb_ℤ}
use Memory.{read, memcpy}

-- `buff` is `none` where the pointer is NULL, and else the bytes of the allocation.
pub record Buff : Type 0 where
  pub buff : Option (List ℕ)
  pub buff_max_size : ℕ
  pub data_size : ℕ

-- The bytes behind a pointer: none behind NULL.
abbrev pub bytes : Option (List ℕ) → List ℕ
bytes none = []
bytes (some m) = m

unfoldable pub init : Buff
init = record { buff = none; buff_max_size = 0; data_size = 0 }

unfoldable pub is_empty : Buff → Bool
is_empty b = elim b.buff [ none ↦ true | some _ ↦ b.data_size == 0 ]

-- `memset` writes `buff_max_size` bytes.
unfoldable pub empty_buff : Buff → Result Buff
empty_buff b = elim b.buff [
  | none ↦ ok (record b { data_size = 0 })
  | some m ↦ memcpy m 0 (replicate b.buff_max_size 0) >>= λ m'.
      ok (record { buff = some m'; buff_max_size = b.buff_max_size; data_size = 0 })
]

-- The number is the old size.
unfoldable pub set_data_size : Buff → ℕ → Result (ℕ × Buff)
set_data_size b size =
    if ltb size b.buff_max_size
    then ok (b.data_size, record b { data_size = size })
    else fault size_assertion

unfoldable pub set_byte : Buff → ℕ → ℕ → Result (ℤ × Buff)
set_byte b p val = if leb b.buff_max_size p then ok (negsuc 0, b) else elim b.buff [
  | none ↦ fault bad_access
  | some m ↦
      if ltb p (length m)
      then ok (pos 0, record b { buff = some (set m p val) })
      else fault bad_access
]

unfoldable pub free_buff : Buff → Buff
free_buff b = record { buff = none; buff_max_size = 0; data_size = 0 }

-- `malloc n` is NULL or an allocation, with the bytes that happen to be there.
abbrev pub Malloc : Type 0
Malloc = ℕ → Option (List ℕ)

-- The copy into the new allocation, before the old one is freed.
unfoldable pub carry_over : Buff → List ℕ → Bool → Result (List ℕ)
carry_over b fresh ignore_copy =
    if ltb 0 b.data_size && not ignore_copy
    then elim b.buff [
      | none ↦ fault bad_access
      | some m ↦ read m b.data_size >>= λ old. memcpy fresh 0 old
    ]
    else ok fresh

-- The allocation of `ensure_size`, once it is known that the buffer has to grow.
unfoldable pub grow : Buff → ℕ → Bool → Option (List ℕ) → Result (ℤ × Buff)
unfolding carry_over free_buff
grow b new_size ignore_copy none = ok (negsuc 0, b)
grow b new_size ignore_copy (some fresh) = carry_over b fresh ignore_copy >>= λ m.
    ok (pos 0, record (free_buff b) { buff = some m; buff_max_size = new_size })

-- `memcpy(&buff_[offset], mem, length)` and the new size.
unfoldable pub store_mem : Buff → List ℕ → ℕ → ℕ → ℕ → Result (ℤ × Buff)
store_mem b mem size offset total = elim b.buff [
  | none ↦ fault bad_access
  | some m ↦ read mem size >>= λ source.
      memcpy m offset source >>= λ m'. ok (pos 0, record b { buff = some m'; data_size = total })
]

module _ (malloc : Malloc) where
  unfoldable pub ensure_size_copy : Buff → ℕ → Bool → Result (ℤ × Buff)
  ensure_size_copy b new_size ignore_copy =
      if leb new_size 0
      then ok (negsuc 0, b)
      else if leb new_size b.buff_max_size
      then ok (pos 0, b)
      else grow b new_size ignore_copy (malloc new_size)

  -- `ensure_size(n)`
  unfoldable pub ensure_size : Buff → ℕ → Result (ℤ × Buff)
  ensure_size b new_size = ensure_size_copy b new_size true

  -- `mem` holds the bytes that the argument points to.
  unfoldable pub copy_mem : Buff → List ℕ → ℕ → ℕ → Result (ℤ × Buff)
  copy_mem b mem size offset =
      let total = (size + offset) % 2 ^ 32 in
      ensure_size b total >>= λ r.
      if ltb_ℤ r.0 (pos 0) then ok r else store_mem r.1 mem size offset total

  unfoldable pub copy_from : Buff → Buff → ℕ → Result (ℤ × Buff)
  copy_from b other offset =
      copy_mem b (bytes other.buff) (to_uint32 (to_int32 other.data_size)) offset

  -- The buffer copied to, `none` for NULL.
  unfoldable pub copy_to : Buff → Option Buff → Result (ℤ × Option Buff)
  copy_to b none = ok (negsuc 0, none)
  copy_to b (some to) = copy_from to b 0 >>= λ r. ok (r.0, some r.1)

unfoldable pub get_buff_size : Buff → ℤ
get_buff_size b = to_int32 b.buff_max_size

unfoldable pub get_buff : Buff → Option (List ℕ)
get_buff b = b.buff

unfoldable pub get_data_len : Buff → ℤ
get_data_len b = to_int32 b.data_size
