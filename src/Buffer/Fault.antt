-- ===== src/Buffer/Fault.antt =====
-- `copy_mem` where its sizes wrap around, and `ensure_size` with a copy.
use grpc_cplugplug_example.Base.{
  ℕ, none, some, ◌+◌, ◌-◌, ◌%◌, ◌^◌, ◌≤◌, ◌<◌, ◌≡◌, ◌⊎◌, inl, inr, true, false, List, take, length,
  length-take_of_le, if◌then◌else◌, Result, ok, fault, bad_access, arith, Returns, Option-cases,
  Bool-cases, leb, refl,
}
use grpc_cplugplug_example.Base.Int.{ℤ, pos, negsuc, ltb_ℤ}
use grpc_cplugplug_example.Buffer.Memory.{memcpy, read_lem, memcpy_lem}
use grpc_cplugplug_example.Buffer.{
  Buff, bytes, Malloc, carry_over, grow, ensure_size, ensure_size_copy, store_mem, copy_mem,
}
use grpc_cplugplug_example.Buffer.Valid.{IsValid, IsMalloc}
use grpc_cplugplug_example.Buffer.Copy.{contents, take-overwrite}

store_mem_outside :
    (b : Buff) (mem : List ℕ) (size offset total : ℕ)
    → IsValid b
    → size ≤ length mem
    → b.buff_max_size < offset + size
    → store_mem b mem size offset total ≡ fault bad_access
unfolding store_mem memcpy
store_mem_outside b mem size offset total v h past =
    ground (arith, read_lem mem size, length-take_of_le size mem)

carry_over_ignored : (b : Buff) (fresh : List ℕ) → carry_over b fresh true ≡ ok fresh
unfolding carry_over
carry_over_ignored b fresh = ground arith

-- What becomes of a copy for which the buffer is made ready for `total` bytes only.
unfoldable pub too_short : Malloc → Buff → ℕ → Result (ℤ × Buff)
too_short malloc b total =
    if leb total 0
    then ok (negsuc 0, b)
    else if leb total b.buff_max_size
    then fault bad_access
    else elim (malloc total) [ none ↦ ok (negsuc 0, b) | some m ↦ fault bad_access ]

-- With an allocator that gives blocks of the size asked for, a valid buffer, and `size` and
-- `offset` below 2 ^ 32 but their sum not, `copy_mem` of a block of at least `size` bytes makes
-- the buffer ready for what the sum leaves beyond 2 ^ 32 only. Where that is 0, or is more than
-- the buffer has and there is no memory for as many bytes, it returns -1 and changes nothing. In
-- every other case it writes outside of the allocation.
pub copy_mem_wraps :
    (malloc : Malloc) (b : Buff) (mem : List ℕ) (size offset : ℕ)
    → IsMalloc malloc
    → IsValid b
    → size ≤ length mem
    → size < 2 ^ 32
    → offset < 2 ^ 32
    → 2 ^ 32 ≤ size + offset
    → copy_mem malloc b mem size offset ≡ too_short malloc b (size + offset - 2 ^ 32)
unfolding copy_mem ensure_size ensure_size_copy grow carry_over too_short
copy_mem_wraps malloc b mem size offset a v h ws wo wrap =
    let total = size + offset - 2 ^ 32 in
    let e : (size + offset) % 2 ^ 32 ≡ total = omega arith in
    rw e (elim (Bool-cases (leb total 0)) [
      | inl empty ↦ rw (empty, ltb_ℤ) refl
      | inr some_left ↦ elim (Bool-cases (leb total b.buff_max_size)) [
        | inl room ↦
            rw (some_left, room, ltb_ℤ)
              (store_mem_outside b mem size offset total v h (omega (arith, v.word)))
        | inr short ↦
            rw (some_left, short)
              (elim (Option-cases (malloc total)) [
                | inl q ↦ rw (q, ltb_ℤ) refl
                | inr (m, q) ↦
                    rw (q, carry_over_ignored b m, ltb_ℤ)
                      (store_mem_outside
                        (record b { buff = some m; buff_max_size = total; data_size = 0 }) mem size
                        offset total
                        (record {
                          shape = a total m q;
                          fits = omega arith;
                          word = omega (arith, h, ws, wo);
                        })
                        h (omega (arith, v.word)))
              ])
      ]
    ])

-- With an allocator that gives blocks of the size asked for, `ensure_size(n, false)` of a valid
-- buffer that has to grow copies the counted bytes into the new allocation, and then counts none
-- of them: the size of the data is 0. Without memory it returns -1 and changes nothing.
pub ensure_size_copy_forgets :
    (malloc : Malloc) (b : Buff) (n : ℕ)
    → IsMalloc malloc
    → IsValid b
    → b.buff_max_size < n
    → Returns
        (λ r.
          ((r.0 ≡ negsuc 0) × (r.1 ≡ b))
          ⊎ ((r.0 ≡ pos 0)
              × (take b.data_size (bytes r.1.buff) ≡ contents b)
              × (r.1.data_size ≡ 0)))
        (ensure_size_copy malloc b n false)
unfolding ensure_size_copy grow carry_over
ensure_size_copy_forgets malloc b n a v h = elim (Option-cases (malloc n)) [
  | inl e ↦ rw e (ground arith)
  | inr (m, e) ↦ ground (
    arith,
    a n m e,
    read_lem (bytes b.buff) b.data_size,
    length-take_of_le b.data_size (bytes b.buff),
    memcpy_lem m 0 (take b.data_size (bytes b.buff)),
    take-overwrite m 0 (take b.data_size (bytes b.buff)),
  )
]
