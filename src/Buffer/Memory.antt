-- ===== src/Buffer/Memory.antt =====
-- Reads and writes of blocks of bytes, with the accesses outside of a block as faults.
use grpc_cplugplug_example.Base.{
  ℕ, ◌+◌, ◌≤◌, ◌≡◌, List, ◌++◌, take, drop, length, append-nil, drop_all, length-append,
  length-take, length-drop, leb, if◌then◌else◌, Result, ok, fault, bad_access, arith,
}

-- The first `n` bytes of a block.
unfoldable pub read : List ℕ → ℕ → Result (List ℕ)
read m n = if leb n (length m) then ok (take n m) else fault bad_access

-- The block with `bytes` written from `offset` on.
unfoldable pub overwrite : List ℕ → ℕ → List ℕ → List ℕ
overwrite m offset bytes = take offset m ++ (bytes ++ drop (offset + length bytes) m)

unfoldable pub memcpy : List ℕ → ℕ → List ℕ → Result (List ℕ)
memcpy m offset bytes =
    if leb (offset + length bytes) (length m)
    then ok (overwrite m offset bytes)
    else fault bad_access

pub length-overwrite :
    (m : List ℕ) (offset : ℕ) (bytes : List ℕ)
    → offset + length bytes ≤ length m
    → length (overwrite m offset bytes) ≡ length m
unfolding overwrite
length-overwrite m offset bytes h = omega (
  arith,
  length-append (take offset m) (bytes ++ drop (offset + length bytes) m),
  length-append bytes (drop (offset + length bytes) m),
  length-take offset m,
  length-drop (offset + length bytes) m,
)

pub read_lem : (m : List ℕ) (n : ℕ) → n ≤ length m → read m n ≡ ok (take n m)
unfolding read
read_lem m n h = ground arith

pub memcpy_lem :
    (m : List ℕ) (offset : ℕ) (bytes : List ℕ)
    → offset + length bytes ≤ length m
    → memcpy m offset bytes ≡ ok (overwrite m offset bytes)
unfolding memcpy
memcpy_lem m offset bytes h = ground arith

-- A write of the whole block.
pub overwrite_all :
    (m : List ℕ) (source : List ℕ) → length source ≡ length m → overwrite m 0 source ≡ source
unfolding overwrite
overwrite_all m source e = rw (drop_all (0 + length source) m (omega arith)) (append-nil source)
