-- ===== src/Text/Join.antt =====
-- The folder that `path_join` makes of its first part.
use grpc_cplugplug_example.Base.{
  ℕ, ◌≡◌, ◌≢◌, refl, ◌⊎◌, inl, inr, List, [], ◌∷◌, ◌++◌, ◌==◌, ok, arith, Bool-cases,
}
use grpc_cplugplug_example.Text.{sep, last_char, join_after, path_join}

last_char-append : (s : List ℕ) (c : ℕ) → last_char (s ++ (c ∷ [])) ≡ ok c
unfolding last_char
last_char-append [] c = refl
last_char-append (d ∷ []) c = refl
last_char-append (d ∷ e ∷ s) c = last_char-append (e ∷ s) c

last_char_total : (c : ℕ) (s : List ℕ) → (d : ℕ) × (last_char (c ∷ s) ≡ ok d)
unfolding last_char
last_char_total c [] = (c, refl)
last_char_total c (d ∷ s) = last_char_total d s

-- What a path is joined to: the first part, with a separator added if it does not end in one.
pub record Folder (p1 dir : List ℕ) : Type 0 where
  pub ends : last_char dir ≡ ok sep
  pub prefix : (dir ≡ p1) ⊎ ((last_char p1 ≢ ok sep) × (dir ≡ p1 ++ (sep ∷ [])))

-- For a first part that is not empty `path_join` gives a folder that ends in the separator, followed
-- by the second part: the folder is the first part, with a separator added only if it has none at
-- its end.
pub path_join_lem :
    (c : ℕ) (s p2 : List ℕ)
    → (dir : List ℕ) × (path_join (c ∷ s) p2 ≡ ok (dir ++ p2)) × Folder (c ∷ s) dir
unfolding path_join join_after
path_join_lem c s p2 =
    let (d, e) = last_char_total c s in
    elim (Bool-cases (d == sep)) [
      | inl ended ↦
          (c ∷ s, rw (e, join_after, ended), record { ends = ground arith; prefix = inl refl })
      | inr open_end ↦ (
        (c ∷ s) ++ (sep ∷ []),
        rw (e, join_after, open_end),
        record { ends = last_char-append (c ∷ s) sep; prefix = inr (λ same. ground arith, refl) },
      )
    ]
