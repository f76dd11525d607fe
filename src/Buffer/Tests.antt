-- ===== src/Buffer/Tests.antt =====
-- Runs of the buffer operations on small buffers.
use grpc_cplugplug_example.Base.{
  ℕ, ◌-◌, ◌^◌, ◌≡◌, refl, ◌⊎◌, true, false, some, List, [], ◌∷◌, ◌++◌, take, replicate, length,
  length-replicate, fault, bad_access, Returns, arith, sym, ap, ◌∙◌,
}
use grpc_cplugplug_example.Base.Int.{pos, negsuc}
use grpc_cplugplug_example.Buffer.{Buff, Malloc, bytes, ensure_size_copy, copy_mem}
use grpc_cplugplug_example.Buffer.Valid.{IsValid, IsMalloc, Ensured, ensure_size_copy-Ensured}
use grpc_cplugplug_example.Buffer.Copy.{contents, target, Copied, copy_mem-Copied}
use grpc_cplugplug_example.Buffer.Fault.{too_short, copy_mem_wraps, ensure_size_copy_forgets}
use grpc_cplugplug_example.Buffer.Array.{Array, unset, get_element_size}
use grpc_cplugplug_example.Buffer.Array.Append.{append_all, AllRefused, append_all_refuses}

abbrev zeros : Malloc
zeros n = some (replicate n 0)

zeros-IsMalloc : IsMalloc zeros
zeros-IsMalloc n m e = sym (ap (λ o. length (bytes o)) e) ∙ length-replicate n 0

-- Two bytes of data in an allocation of four.
abbrev half_full : Buff
half_full = record { buff = some (1 ∷ 2 ∷ 0 ∷ 0 ∷ []); buff_max_size = 4; data_size = 2 }

half_full-IsValid : IsValid half_full
half_full-IsValid = record { shape = refl; fits = omega arith; word = omega arith }

abbrev three_bytes : List ℕ
three_bytes = 7 ∷ 8 ∷ 9 ∷ []

-- An array after its constructor, with the two numbers that happen to be 0.
abbrev new_array : Array
new_array = record { buff = half_full; header = unset; max_size = 0; end = 0 }

ensure_size_copy-Ensured_example :
    Returns (Ensured half_full 6) (ensure_size_copy zeros half_full 6 true)
ensure_size_copy-Ensured_example =
    ensure_size_copy-Ensured zeros half_full 6 true zeros-IsMalloc half_full-IsValid (omega arith)

copy_mem-Copied_example :
    Returns
      (Copied half_full (take 1 (target zeros half_full 4) ++ take 3 three_bytes))
      (copy_mem zeros half_full three_bytes 3 1)
copy_mem-Copied_example =
    copy_mem-Copied zeros half_full three_bytes 3 1 zeros-IsMalloc half_full-IsValid (omega arith)
      (omega arith)

copy_mem_wraps_example : copy_mem zeros half_full three_bytes 3 (2 ^ 32 - 1) ≡ fault bad_access
unfolding too_short
copy_mem_wraps_example =
    copy_mem_wraps zeros half_full three_bytes 3 (2 ^ 32 - 1) zeros-IsMalloc half_full-IsValid
      (omega arith) (omega arith) (omega arith) (omega arith)

ensure_size_copy_forgets_example :
    Returns
      (λ r.
        ((r.0 ≡ negsuc 0) × (r.1 ≡ half_full))
        ⊎ ((r.0 ≡ pos 0)
            × (take half_full.data_size (bytes r.1.buff) ≡ contents half_full)
            × (r.1.data_size ≡ 0)))
      (ensure_size_copy zeros half_full 6 false)
ensure_size_copy_forgets_example =
    ensure_size_copy_forgets zeros half_full 6 zeros-IsMalloc half_full-IsValid (omega arith)

append_all_refuses_example :
    Returns
      (λ r. AllRefused r.0 × (get_element_size r.1 ≡ get_element_size new_array))
      (append_all 1 (λ x. x ∷ []) zeros new_array three_bytes)
append_all_refuses_example =
    append_all_refuses 1 (λ x. x ∷ []) zeros new_array three_bytes zeros-IsMalloc
      (λ n e. absurd (cc e)) half_full-IsValid (omega arith)
