-- ===== src/Buffer/Copy.antt =====
-- `copy_mem`, `copy_from` and `copy_to`: which bytes end up in the buffer.
use grpc_cplugplug_example.Base.{
  ℕ, ◌+◌, ◌%◌, ◌^◌, ◌≤◌, ◌<◌, ◌≡◌, sym, ◌⊎◌, true, Option, none, some, List, ◌++◌, take, drop,
  append_assoc, length, length-append, take_prefix, length-take_of_le, leb, if◌then◌else◌, arith,
  Returns, Returns->>=,
}
use grpc_cplugplug_example.Base.Int.{ℤ, pos, negsuc, to_int32, to_uint32}
use grpc_cplugplug_example.Buffer.Memory.{overwrite, length-overwrite, read_lem, memcpy_lem}
use grpc_cplugplug_example.Buffer.{
  Buff, bytes, Malloc, grow, carry_over, ensure_size, ensure_size_copy, store_mem, copy_mem,
  copy_from, copy_to,
}
use grpc_cplugplug_example.Buffer.Valid.{IsValid, IsMalloc, Ensured, ensure_size_copy-Ensured}

-- The data that a buffer counts as its own.
abbrev pub contents : Buff → List ℕ
contents b = take b.data_size (bytes b.buff)

pub take-overwrite :
    (m : List ℕ) (offset : ℕ) (source : List ℕ)
    → offset ≤ length m
    → take (offset + length source) (overwrite m offset source) ≡ take offset m ++ source
unfolding overwrite
take-overwrite m offset source h =
    let p : length (take offset m ++ source) ≡ offset + length source =
      omega (arith, length-append (take offset m) source, length-take_of_le offset m h) in
    rw (← append_assoc (take offset m) source (drop (offset + length source) m))
      (take_prefix (take offset m ++ source) (drop (offset + length source) m) (sym p))

-- The block that a call writes into: the buffer's own, or a new one where the buffer grows.
abbrev pub target : Malloc → Buff → ℕ → List ℕ
target malloc b n = if leb n b.buff_max_size then bytes b.buff else bytes (malloc n)

-- What a successful or refused copy leaves.
pub record Copied (b : Buff) (copied : List ℕ) (r : ℤ × Buff) : Type 0 where
  pub valid : IsValid r.1
  pub outcome : ((r.0 ≡ negsuc 0) × (r.1 ≡ b)) ⊎ ((r.0 ≡ pos 0) × (contents r.1 ≡ copied))

ensure_size-target :
    (malloc : Malloc) (b : Buff) (n : ℕ)
    → IsMalloc malloc
    → IsValid b
    → n < 2 ^ 32
    → Returns
        (λ r. Ensured b n r × (r.0 ≡ pos 0 → bytes r.1.buff ≡ target malloc b n))
        (ensure_size malloc b n)
unfolding ensure_size ensure_size_copy grow carry_over
ensure_size-target malloc b n a v w = ground (arith, ensure_size_copy-Ensured malloc b n true a v w)

store_mem_lem :
    (b : Buff) (mem : List ℕ) (size offset : ℕ)
    → IsValid b
    → size ≤ length mem
    → 0 < size + offset
    → size + offset ≤ b.buff_max_size
    → Returns
        (λ r.
          IsValid r.1
          × (r.0 ≡ pos 0)
          × (contents r.1 ≡ take offset (bytes b.buff) ++ take size mem))
        (store_mem b mem size offset (size + offset))
unfolding store_mem
store_mem_lem b mem size offset v h p q = ground (
  arith,
  read_lem mem size,
  length-take_of_le size mem,
  memcpy_lem (bytes b.buff) offset (take size mem),
  length-overwrite (bytes b.buff) offset (take size mem),
  take-overwrite (bytes b.buff) offset (take size mem),
)

-- With an allocator that gives blocks of the size asked for, `copy_mem` of a block of at least
-- `size` bytes into a valid buffer never faults where the sum of `size` and `offset` is below 2 ^
-- 32. It returns -1 and leaves the buffer alone, or it returns 0: then the buffer counts `offset`
-- bytes of the block that it writes into, and behind them the bytes copied.
pub copy_mem-Copied :
    (malloc : Malloc) (b : Buff) (mem : List ℕ) (size offset : ℕ)
    → IsMalloc malloc
    → IsValid b
    → size ≤ length mem
    → size + offset < 2 ^ 32
    → Returns
        (Copied b (take offset (target malloc b (size + offset)) ++ take size mem))
        (copy_mem malloc b mem size offset)
unfolding copy_mem
copy_mem-Copied malloc b mem size offset a v h w =
    let e : (size + offset) % 2 ^ 32 ≡ size + offset = omega arith in
    rw e (
      Returns->>= _ _ (ensure_size malloc b (size + offset)) _
        (ensure_size-target malloc b (size + offset) a v w)
        λ r p. ground (arith, p.0.outcome, store_mem_lem r.1 mem size offset p.0.valid h))

-- What `copy_to` leaves in the buffer copied to.
abbrev pub Delivered : Buff → List ℕ → ℤ × Option Buff → Type 0
Delivered to copied (code, none) = ⊥
Delivered to copied (code, some b) = Copied to copied (code, b)

copy_from-Copied :
    (malloc : Malloc) (b other : Buff)
    → IsMalloc malloc
    → IsValid b
    → IsValid other
    → Returns (Copied b (contents other)) (copy_from malloc b other 0)
unfolding copy_from
copy_from-Copied malloc b other a v w =
    let e : to_uint32 (to_int32 other.data_size) ≡ other.data_size =
      ground (arith, w.word, w.fits) in
    rw e (
      copy_mem-Copied malloc b (bytes other.buff) other.data_size 0 a v (ground (arith, w.shape))
        (omega (arith, w.word, w.fits)))

-- With an allocator that gives blocks of the size asked for, `copy_to` between valid buffers never
-- faults. It returns -1 and leaves the target alone, or it returns 0 and the target counts exactly
-- the bytes that the source counts.
pub copy_to-Delivered :
    (malloc : Malloc) (b to : Buff)
    → IsMalloc malloc
    → IsValid b
    → IsValid to
    → Returns (Delivered to (contents b)) (copy_to malloc b (some to))
unfolding copy_to
copy_to-Delivered malloc b to a v w =
    Returns->>= _ _ (copy_from malloc to b 0) _ (copy_from-Copied malloc to b a w v) λ r p. p
