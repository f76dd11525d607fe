-- ===== src/Buffer/Array/Append.antt =====
-- What `append` adds to an array.
use grpc_cplugplug_example.Base.{
  ℕ, ◌+◌, ◌*◌, ◌%◌, ◌^◌, ◌<◌, ◌≡◌, ◌≢◌, refl, none, List, [], ◌∷◌, Result, ok, arith, Returns,
  Returns->>=, Returns-×, true, fault, if◌then◌else◌, ◌∙◌, ◌>>=◌,
}
use grpc_cplugplug_example.Base.Int.{ℤ, pos, negsuc, nonzero}
use grpc_cplugplug_example.Buffer
use grpc_cplugplug_example.Buffer.{Buff, Malloc, ensure_size_copy}
use grpc_cplugplug_example.Buffer.Valid.{
  IsValid, IsMalloc, Ensured, ensure_size_copy-Ensured, ensure_size_copy_succeeds,
}
use grpc_cplugplug_example.Buffer.Array.{
  Array, current, push, ensure_size, append, get_element_size,
}

-- The bytes that `append` asks for.
abbrev pub wanted : ℕ → Array → ℕ
wanted size_of a = (size_of * (((a.end + 1) % 2 ^ 32) * 2 % 2 ^ 32)) % 2 ^ 32

-- Every code of the list is -1.
abbrev pub AllRefused : List ℤ → Type 0
AllRefused [] = Unit {0}
AllRefused (c ∷ cs) = (c ≡ negsuc 0) × AllRefused cs

module _ {T : Type 0} (size_of : ℕ) (encode : T → List ℕ) (malloc : Malloc) where
  -- A run of appends, with what each of them returns.
  unfoldable pub append_all : Array → List T → Result (List ℤ × Array)
  append_all a [] = ok ([], a)
  append_all a (v ∷ vs) =
      append size_of encode malloc a v >>= λ r. append_all r.1 vs >>= λ s. ok (r.0 ∷ s.0, s.1)

  append_step :
      (a : Array) (v : T)
      → IsMalloc malloc
      → ((n : ℕ) → malloc n ≢ none)
      → IsValid a.buff
      → 0 < wanted size_of a
      → Returns
          (λ r. (r.0 ≡ negsuc 0) × IsValid r.1.buff × (r.1.end ≡ a.end))
          (append size_of encode malloc a v)
  unfolding append ensure_size Buffer.ensure_size
  append_step a v am full valid h = go (ensure_size_copy malloc a.buff (wanted size_of a) true) (
      Returns-× _ _ _
        (ensure_size_copy-Ensured malloc a.buff (wanted size_of a) true am valid (omega arith))
        (ensure_size_copy_succeeds malloc a.buff (wanted size_of a) (full _) h))
    where
      next : ℤ × Buff → Result (ℤ × Array)
      next r =
          if nonzero r.0
          then ok (r.0, record a { buff = r.1 })
          else ok (
            r.0,
            record a {
              buff = r.1;
              header = current;
              max_size = ((a.end + 1) % 2 ^ 32) * 2 % 2 ^ 32;
            },
          )

      after : ℤ × Array → Result (ℤ × Array)
      after r = if nonzero r.0 then push size_of encode malloc r.1 v else ok (negsuc 0, r.1)

      go :
          (m : Result (ℤ × Buff))
          → Returns (λ r. Ensured a.buff (wanted size_of a) r × (r.0 ≡ pos 0)) m
          → Returns
              (λ r. (r.0 ≡ negsuc 0) × IsValid r.1.buff × (r.1.end ≡ a.end))
              ((m >>= next) >>= after)
      go (ok r) p = rw p.1 (refl, p.0.valid, refl)
      go (fault e) p = p

  -- With an allocator that always gives a block, of the size asked for, no run of appends to an
  -- array whose buffer is valid and that does not ask for 0 bytes adds an element: every call
  -- returns -1 and the number of elements stays.
  pub append_all_refuses :
      (a : Array) (vs : List T)
      → IsMalloc malloc
      → ((n : ℕ) → malloc n ≢ none)
      → IsValid a.buff
      → 0 < wanted size_of a
      → Returns
          (λ r. AllRefused r.0 × (get_element_size r.1 ≡ get_element_size a))
          (append_all a vs)
  unfolding append_all get_element_size
  append_all_refuses a [] am full valid h = (tt, refl)
  append_all_refuses a (v ∷ vs) am full valid h =
      Returns->>= _ _ (append size_of encode malloc a v) _ (append_step a v am full valid h) λ r p.
        Returns->>= _ _ (append_all r.1 vs) _ (append_all_refuses r.1 vs am full p.1 (rw p.2 h))
          λ s q. ((p.0, q.0), q.1 ∙ p.2)
