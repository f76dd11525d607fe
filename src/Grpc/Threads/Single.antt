-- ===== src/Grpc/Threads/Single.antt =====
-- A map of pointers, each the only one to its object, as the map of the devices that it stands for.
use mathlib.Core.Option.{some_inj}
use grpc_cplugplug_example.Base.{
  ℕ, zero, suc, ◌<◌, ◌≤◌, ◌≡◌, ◌≢◌, refl, ap, sym, ◌∙◌, inl, inr, Option, none, some, List, [], ◌∷◌,
  length, ◌==◌, arith, Bool-cases,
}
use grpc_cplugplug_example.Device.{Device}
use grpc_cplugplug_example.Provider.Map.{
  text_eq, text_eq_iff, lookup, insert, erase, lookup-insert, lookup-erase-none,
}
use grpc_cplugplug_example.Provider.Shared.{Object, Objects, at}
use grpc_cplugplug_example.Grpc.Threads.Owners.{map_owned, map_owned-erase, map_owned-insert}

-- The object of a device with this many owners.
abbrev pub owned : Device → ℕ → Option Object
owned d n = some (record { device = d; owners = n })

-- The two maps have the same keys, each once, and each pointer is the only one to an object of the
-- other map's device.
abbrev pub Same : Objects → List (List ℕ × ℕ) → List (List ℕ × Device) → Type 0
Same os [] [] = Unit {0}
Same os ((k, i) ∷ m) ((j, d) ∷ l) =
    (k ≡ j) × (at os i ≡ owned d 1) × (map_owned m i ≡ 0) × (lookup k m ≡ none) × Same os m l
Same os _ _ = ⊥

-- Objects that no pointer of the map reads may change.
pub Same-agree :
    (os os' : Objects) (m : List (List ℕ × ℕ)) (l : List (List ℕ × Device))
    → ((j : ℕ) → 0 < map_owned m j → at os' j ≡ at os j)
    → Same os m l
    → Same os' m l
Same-agree os os' [] [] h v = tt
Same-agree os os' ((k, i) ∷ m) ((j, d) ∷ l) h v = (
  v.0,
  h i (ground arith) ∙ v.1,
  v.2,
  v.3,
  Same-agree os os' m l (λ n p. h n (omega (arith, p))) v.4,
)
Same-agree os os' [] ((j, d) ∷ l) h v = absurd v
Same-agree os os' ((k, i) ∷ m) [] h v = absurd v

pub Same-lookup-none :
    (os : Objects) (sn : List ℕ) (m : List (List ℕ × ℕ)) (l : List (List ℕ × Device))
    → Same os m l
    → lookup sn m ≡ none
    → lookup sn l ≡ none
unfolding lookup
Same-lookup-none os sn [] [] v e = refl
Same-lookup-none os sn ((k, i) ∷ m) ((j, d) ∷ l) v e = elim (Bool-cases (text_eq k sn)) [
  | inl same ↦ absurd (cc (simp same at e))
  | inr apart ↦ rw (sym v.0, apart) (Same-lookup-none os sn m l v.4 (simp apart at e))
]
Same-lookup-none os sn [] ((j, d) ∷ l) v e = absurd v
Same-lookup-none os sn ((k, i) ∷ m) [] v e = absurd v

pub Same-lookup :
    (os : Objects) (sn : List ℕ) (m : List (List ℕ × ℕ)) (l : List (List ℕ × Device)) (i : ℕ)
    → Same os m l
    → lookup sn m ≡ some i
    → (d : Device) × (lookup sn l ≡ some d) × (at os i ≡ owned d 1) × (map_owned m i ≡ 1)
unfolding lookup
Same-lookup os sn [] [] i v e = absurd (cc e)
Same-lookup os sn ((k, n) ∷ m) ((j, d) ∷ l) i v e = elim (Bool-cases (text_eq k sn)) [
  | inl same ↦
      let q : some n ≡ some i = simp same at e in
      let n=i : n ≡ i = some_inj.0 q in
      (
        d,
        rw (sym v.0, same) refl,
        ap (at os) (sym n=i) ∙ v.1,
        ground (arith, n=i, v.2, ap (map_owned m) n=i),
      )
  | inr apart ↦
      let q : lookup sn m ≡ some i = simp apart at e in
      let (d', found, there, once) = Same-lookup os sn m l i v.4 q in
      (
        d',
        rw (sym v.0, apart) found,
        there,
        elim (Bool-cases (n == i)) [
          | inl twice ↦
              let n=i : n ≡ i = ground (arith, twice) in
              absurd (omega (arith, once, v.2, ap (map_owned m) n=i))
          | inr other ↦ rw other (omega (arith, once))
        ],
      )
]
Same-lookup os sn [] ((j, d) ∷ l) i v e = absurd v
Same-lookup os sn ((k, n) ∷ m) [] i v e = absurd v

-- An update of the one object that a key points to.
pub Same-update :
    (os os' : Objects) (sn : List ℕ) (m : List (List ℕ × ℕ)) (l : List (List ℕ × Device)) (i : ℕ)
    (d' : Device)
    → Same os m l
    → lookup sn m ≡ some i
    → ((j : ℕ) → j ≢ i → at os' j ≡ at os j)
    → at os' i ≡ owned d' 1
    → Same os' m (insert sn d' l)
unfolding lookup insert
Same-update os os' sn [] [] i d' v e other self = absurd (cc e)
Same-update os os' sn ((k, n) ∷ m) ((j, d) ∷ l) i d' v e other self =
    elim (Bool-cases (text_eq k sn)) [
      | inl same ↦
          let q : some n ≡ some i = simp same at e in
          let n=i : n ≡ i = some_inj.0 q in
          rw (sym v.0, same)
            (
              (text_eq_iff k sn).0 same,
              ap (at os') n=i ∙ self,
              v.2,
              v.3,
              Same-agree os os' m l
                  (λ p pos. other p (λ r. omega (arith, pos, v.2, ap (map_owned m) (n=i ∙ sym r))))
                  v.4,
            )
      | inr apart ↦
          let q : lookup sn m ≡ some i = simp apart at e in
          let (d0, found, there, once) = Same-lookup os sn m l i v.4 q in
          rw (sym v.0, apart)
            (
              refl,
              other n (λ r. omega (arith, once, v.2, ap (map_owned m) r)) ∙ v.1,
              v.2,
              v.3,
              Same-update os os' sn m l i d' v.4 q other self,
            )
    ]
Same-update os os' sn [] ((j, d) ∷ l) i d' v e other self = absurd v
Same-update os os' sn ((k, n) ∷ m) [] i d' v e other self = absurd v

-- A new key with a pointer that the map does not have.
pub Same-insert :
    (os : Objects) (sn : List ℕ) (m : List (List ℕ × ℕ)) (l : List (List ℕ × Device)) (i : ℕ)
    (d : Device)
    → Same os m l
    → lookup sn m ≡ none
    → map_owned m i ≡ 0
    → at os i ≡ owned d 1
    → Same os (insert sn i m) (insert sn d l)
unfolding lookup insert
Same-insert os sn [] [] i d v e fresh there = (refl, there, refl, refl, tt)
Same-insert os sn ((k, n) ∷ m) ((j, d') ∷ l) i d v e fresh there =
    elim (Bool-cases (text_eq k sn)) [
      | inl same ↦ absurd (cc (simp same at e))
      | inr apart ↦
          let q : lookup sn m ≡ none = simp apart at e in
          rw (sym v.0, apart)
            (
              refl,
              v.1,
              ground (arith, map_owned-insert sn i m n, v.2, fresh),
              lookup-insert sn k i m
                  ∙ ground (arith, text_eq_iff sn k, text_eq_iff k sn, apart, v.3),
              Same-insert os sn m l i d v.4 q (omega (arith, fresh)) there,
            )
    ]
Same-insert os sn [] ((j, d') ∷ l) i d v e fresh there = absurd v
Same-insert os sn ((k, n) ∷ m) [] i d v e fresh there = absurd v

pub Same-erase :
    (os : Objects) (sn : List ℕ) (m : List (List ℕ × ℕ)) (l : List (List ℕ × Device))
    → Same os m l
    → Same os (erase sn m) (erase sn l) × (lookup sn (erase sn m) ≡ none)
unfolding lookup erase
Same-erase os sn [] [] v = (tt, refl)
Same-erase os sn ((k, n) ∷ m) ((j, d) ∷ l) v = elim (Bool-cases (text_eq k sn)) [
  | inl same ↦
      rw (sym v.0, same) (v.4, ap (λ x. lookup x m) (sym ((text_eq_iff k sn).0 same)) ∙ v.3)
  | inr apart ↦
      let (rest, gone) = Same-erase os sn m l v.4 in
      rw (sym v.0, apart)
        (
          (
            refl,
            v.1,
            omega (arith, map_owned-erase sn m n, v.2),
            lookup-erase-none sn k m v.3,
            rest,
          ),
          rw apart gone,
        )
]
Same-erase os sn [] ((j, d) ∷ l) v = absurd v
Same-erase os sn ((k, n) ∷ m) [] v = absurd v

at_behind : (os : Objects) (j : ℕ) → length os ≤ j → at os j ≡ none
at_behind [] j le = refl
at_behind (x ∷ os) zero le = absurd (omega (arith, le))
at_behind (x ∷ os) (suc j) le = at_behind os j (omega (arith, le))

-- No pointer leads behind the objects.
pub Same-bound :
    (os : Objects) (m : List (List ℕ × ℕ)) (l : List (List ℕ × Device)) (j : ℕ)
    → Same os m l
    → length os ≤ j
    → map_owned m j ≡ 0
Same-bound os [] [] j v le = refl
Same-bound os ((k, n) ∷ m) ((k', d) ∷ l) j v le = elim (Bool-cases (n == j)) [
  | inl same ↦
      let n=j : n ≡ j = ground (arith, same) in
      absurd (cc (sym (at_behind os n (omega (arith, n=j, le))) ∙ v.1))
  | inr apart ↦ rw apart (omega (arith, Same-bound os m l j v.4 le))
]
Same-bound os [] ((k', d) ∷ l) j v le = absurd v
Same-bound os ((k, n) ∷ m) [] j v le = absurd v
