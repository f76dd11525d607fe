-- ===== src/Buffer/Write.antt =====
-- The operations that change single bytes, the data size or nothing but the contents.
use grpc_cplugplug_example.Base.{
  ℕ, ◌≤◌, ◌<◌, ◌≡◌, ◌≢◌, refl, sym, ◌∙◌, ◌⊎◌, true, some, List, length, get_elem?,
  get_elem?-set_self, get_elem?-set_ne, length-set, Option-cases, Bool-cases, inl, inr,
  length-replicate, replicate, ltb, leb, ok, fault, size_assertion, arith, Returns,
}
use grpc_cplugplug_example.Base.Int.{ℤ, pos, negsuc}
use grpc_cplugplug_example.Buffer.Memory.{memcpy_lem, overwrite_all, length-overwrite}
use grpc_cplugplug_example.Buffer.{Buff, bytes, is_empty, empty_buff, set_data_size, set_byte}
use grpc_cplugplug_example.Buffer.Valid.{IsValid}

-- `set_data_size` goes on exactly below the allocated size: the full size is refused too, by the
-- end of the process. Where it goes on it gives the old size and keeps the buffer valid.
pub set_data_size_total :
    (b : Buff) (size : ℕ)
    → IsValid b
    → ((size < b.buff_max_size)
        × (set_data_size b size ≡ ok (b.data_size, record b { data_size = size }))
        × IsValid (record b { data_size = size }))
      ⊎ ((b.buff_max_size ≤ size) × (set_data_size b size ≡ fault size_assertion))
unfolding set_data_size
set_data_size_total b size v = ground arith

-- What `set_byte` does: nothing out of range, and in range the one byte is written.
pub record ByteSet (b : Buff) (p val : ℕ) (r : ℤ × Buff) : Type 0 where
  pub valid : IsValid r.1
  pub outcome :
      ((b.buff_max_size ≤ p) × (r.0 ≡ negsuc 0) × (r.1 ≡ b))
      ⊎ ((p < b.buff_max_size)
          × (r.0 ≡ pos 0)
          × (get_elem? (bytes r.1.buff) p ≡ some val)
          × (r.1.data_size ≡ b.data_size)
          × (r.1.buff_max_size ≡ b.buff_max_size))
  pub others : (q : ℕ) → q ≢ p → get_elem? (bytes r.1.buff) q ≡ get_elem? (bytes b.buff) q

-- `set_byte` on a valid buffer never faults and keeps it valid: past the allocated size it returns
-- -1 and changes nothing, and else it returns 0, writes the one byte and no other, and keeps sizes.
pub set_byte-ByteSet :
    (b : Buff) (p val : ℕ) → IsValid b → Returns (ByteSet b p val) (set_byte b p val)
unfolding set_byte
set_byte-ByteSet b p val v = elim (Bool-cases (leb b.buff_max_size p)) [
  | inl past ↦
      rw past
        (record { valid = v; outcome = inl (ground arith, refl, refl); others = λ q ne. refl })
  | inr within ↦ elim (Option-cases b.buff) [
    | inl e ↦ absurd (ground (arith, v.shape))
    | inr (m, e) ↦
        let size : length m ≡ b.buff_max_size = ground (arith, v.shape) in
        let here : ltb p (length m) ≡ true = ground arith in
        rw (within, e, here)
          (record {
            valid = ground (arith, length-set m p val);
            outcome =
                inr (ground arith, refl, get_elem?-set_self m p val (ground arith), refl, refl);
            others = λ q ne. get_elem?-set_ne m p q val ne;
          })
  ]
]

-- After `empty_buff` a valid buffer is valid, empty, as large as before, and holds zeros.
pub empty_buff_lem :
    (b : Buff)
    → IsValid b
    → Returns
        (λ r.
          IsValid r
          × (is_empty r ≡ true)
          × (r.buff_max_size ≡ b.buff_max_size)
          × (bytes r.buff ≡ replicate b.buff_max_size 0))
        (empty_buff b)
unfolding empty_buff is_empty
empty_buff_lem b v = elim (Option-cases b.buff) [
  | inl e ↦ rw e (ground (arith, v.shape))
  | inr (m, e) ↦
      let size : length m ≡ b.buff_max_size = ground (arith, v.shape) in
      let zeros : List ℕ = replicate b.buff_max_size 0 in
      let full : length zeros ≡ length m = length-replicate b.buff_max_size 0 ∙ sym size in
      rw (e, memcpy_lem m 0 zeros (omega arith))
        (omega (arith, length-overwrite m 0 zeros), refl, refl, overwrite_all m zeros full)
]
