-- ===== src/Grpc/Threads/Keyed.antt =====
-- Maps whose keys are in upper case, as `to_upper` of src/utils.cpp makes them.
use mathlib.Core.Option.{some_inj}
use grpc_cplugplug_example.Base.{
  ℕ, zero, suc, ◌≡◌, ◌≢◌, refl, ap, sym, ◌∙◌, subst, inl, inr, none, some, List, [], ◌∷◌, true,
  false, get_elem?, Bool-cases,
}
use grpc_cplugplug_example.Text.{to_upper}
use grpc_cplugplug_example.Provider.Map.{
  text_eq, text_eq_iff, lookup, insert, erase, lookup-insert, lookup-erase-none,
}

-- Each key is in upper case, and no other entry has it.
abbrev pub Keyed : List (List ℕ × ℕ) → Type 0
Keyed [] = Unit
Keyed ((k, i) ∷ m) = (to_upper k ≡ k) × (lookup k m ≡ none) × Keyed m

pub erase-Keyed : (k : List ℕ) (m : List (List ℕ × ℕ)) → Keyed m → Keyed (erase k m)
unfolding erase
erase-Keyed k [] h = tt
erase-Keyed k ((l, i) ∷ m) h = elim (Bool-cases (text_eq l k)) [
  | inl e ↦ rw e h.2
  | inr e ↦ rw e (h.0, lookup-erase-none k l m h.1, erase-Keyed k m h.2)
]

pub insert-Keyed :
    (k : List ℕ) (i : ℕ) (m : List (List ℕ × ℕ)) → to_upper k ≡ k → Keyed m → Keyed (insert k i m)
unfolding insert lookup
insert-Keyed k i [] u h = (u, refl, tt)
insert-Keyed k i ((l, j) ∷ m) u h = elim (Bool-cases (text_eq l k)) [
  | inl e ↦ rw e (u, subst (λ x. lookup x m ≡ none) ((text_eq_iff l k).0 e) h.1, h.2)
  | inr e ↦ rw e (h.0, lookup-insert k l i m ∙ rw (other e) h.1, insert-Keyed k i m u h.2)
]
  where
    other : text_eq l k ≡ false → text_eq k l ≡ false
    other e = elim (Bool-cases (text_eq k l)) [
      | inl same ↦ absurd (cc ((text_eq_iff l k).1 (sym ((text_eq_iff k l).0 same)), e))
      | inr apart ↦ apart
    ]

-- A key that a list of entries does not have.
lookup_apart :
    (m : List (List ℕ × ℕ)) (j : ℕ) (k l : List ℕ) (i : ℕ)
    → lookup k m ≡ none
    → get_elem? m j ≡ some (l, i)
    → k ≢ l
unfolding lookup
lookup_apart [] j k l i e q = absurd (cc q)
lookup_apart ((x, y) ∷ m) zero k l i e q = λ k=l.
    let first : text_eq x k ≡ true = (text_eq_iff x k).1 (ap (λ z. z.0) (some_inj.0 q) ∙ sym k=l) in
    cc (simp first at e)
lookup_apart ((x, y) ∷ m) (suc j) k l i e q = elim (Bool-cases (text_eq x k)) [
  | inl same ↦ absurd (cc (simp same at e))
  | inr apart ↦ lookup_apart m j k l i (simp apart at e) q
]

pub keys_upper :
    (m : List (List ℕ × ℕ)) (j : ℕ) (l : List ℕ) (i : ℕ)
    → Keyed m
    → get_elem? m j ≡ some (l, i)
    → to_upper l ≡ l
keys_upper [] j l i h e = absurd (cc e)
keys_upper ((x, y) ∷ m) zero l i h e =
    subst (λ (z : List ℕ × ℕ). to_upper z.0 ≡ z.0) (some_inj.0 e) h.0
keys_upper ((x, y) ∷ m) (suc j) l i h e = keys_upper m j l i h.2 e

-- Keys that are the same up to the case of their letters stand at one place.
pub Keyed-apart :
    (m : List (List ℕ × ℕ)) (a b : ℕ) (k l : List ℕ) (i j : ℕ)
    → Keyed m
    → get_elem? m a ≡ some (k, i)
    → get_elem? m b ≡ some (l, j)
    → to_upper k ≡ to_upper l
    → a ≡ b
Keyed-apart m a b k l i j h e q u =
    let k=l : k ≡ l = sym (keys_upper m a k i h e) ∙ u ∙ keys_upper m b l j h q in
    place m a b h e q k=l
  where
    place :
        (m : List (List ℕ × ℕ)) (a b : ℕ)
        → Keyed m
        → get_elem? m a ≡ some (k, i)
        → get_elem? m b ≡ some (l, j)
        → k ≡ l
        → a ≡ b
    place [] a b h e q k=l = absurd (cc e)
    place ((x, y) ∷ m) zero zero h e q k=l = refl
    place ((x, y) ∷ m) zero (suc b) h e q k=l =
        absurd (lookup_apart m b x l j h.1 q (ap (λ z. z.0) (some_inj.0 e) ∙ k=l))
    place ((x, y) ∷ m) (suc a) zero h e q k=l =
        absurd (lookup_apart m a x k i h.1 e (ap (λ z. z.0) (some_inj.0 q) ∙ sym k=l))
    place ((x, y) ∷ m) (suc a) (suc b) h e q k=l = ap suc (place m a b h.2 e q k=l)
