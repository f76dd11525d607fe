-- ===== src/Provider/Shared/Heap.antt =====
-- The objects with the pointers to them counted.
use grpc_cplugplug_example.Base.{
  ℕ, zero, suc, ◌+◌, ◌-◌, ◌<◌, ◌≡◌, ◌≢◌, refl, ap, sym, subst, ◌∙◌, inl, inr, Option, none, some,
  [], ◌∷◌, ◌++◌, length, set, ◌==◌, if◌then◌else◌, arith, Returns, Returns->>=, Bool-cases,
  Option-cases,
}
use grpc_cplugplug_example.Sdk.{Env, Sys}
use grpc_cplugplug_example.Sdk.Laws.{Conserves}
use grpc_cplugplug_example.Device.{Device}
use grpc_cplugplug_example.Device.States.{device_held}
use grpc_cplugplug_example.Provider.{destroy_device}
use grpc_cplugplug_example.Provider.Cameras.{IsFit, destroy_device_lem}
use grpc_cplugplug_example.Provider.Shared.{
  Object, Objects, at, make_shared, share, release_found, release,
}

-- Whether two places are the same, as a number.
abbrev pub one : ℕ → ℕ → ℕ
one i j = if i == j then 1 else 0

abbrev pub owners_of : Option Object → ℕ
owners_of none = 0
owners_of (some o) = o.owners

abbrev pub object_held : Option Object → ℕ → ℕ
object_held none h = 0
object_held (some o) h = device_held o.device h

-- How often the objects hold a handle.
abbrev pub objects_held : Objects → ℕ → ℕ
objects_held [] h = 0
objects_held (x ∷ os) h = object_held x h + objects_held os h

-- `c` counts the pointers to each place. An object that is alive has an owner, and its device is
-- ready or closed.
pub record Counted (c : ℕ → ℕ) (os : Objects) : Type 0 where
  pub counted : (i : ℕ) → owners_of (at os i) ≡ c i
  pub alive : (i : ℕ) (o : Object) → at os i ≡ some o → 0 < o.owners
  pub fit : (i : ℕ) (o : Object) → at os i ≡ some o → IsFit o.device

-- Every object was there before, with the same device.
abbrev pub Kin : Objects → Objects → Type 0
Kin os os' =
    (j : ℕ) (o' : Object)
    → at os' j ≡ some o'
    → (o : Object) × (at os j ≡ some o) × (o'.device ≡ o.device)

pub at-set :
    (os : Objects) (i j : ℕ) (o : Object) (x : Option Object)
    → at os i ≡ some o
    → at (set os i x) j ≡ (if i == j then x else at os j)
at-set [] i j o x e = cc
at-set (y ∷ os) zero zero o x e = refl
at-set (y ∷ os) zero (suc j) o x e = ground arith
at-set (y ∷ os) (suc i) zero o x e = ground arith
at-set (y ∷ os) (suc i) (suc j) o x e = at-set os i j o x e ∙ ground arith

pub at-set_self :
    (os : Objects) (i : ℕ) (o : Object) (x : Option Object)
    → at os i ≡ some o
    → at (set os i x) i ≡ x
at-set_self os i o x e = at-set os i i o x e ∙ ground arith

objects_held-set :
    (os : Objects) (i : ℕ) (o : Object) (x : Option Object) (h : ℕ)
    → at os i ≡ some o
    → objects_held (set os i x) h + device_held o.device h ≡ objects_held os h + object_held x h
objects_held-set [] i o x h e = cc
objects_held-set (y ∷ os) zero o x h e = omega (arith, ap (λ z. object_held z h) e)
objects_held-set (y ∷ os) (suc i) o x h e = omega (arith, objects_held-set os i o x h e)

pub at-append :
    (os : Objects) (j : ℕ) (x : Option Object)
    → at (os ++ (x ∷ [])) j ≡ (if length os == j then x else at os j)
at-append [] zero x = refl
at-append [] (suc j) x = ground arith
at-append (y ∷ os) zero x = ground arith
at-append (y ∷ os) (suc j) x = at-append os j x ∙ ground arith

pub at-length : (os : Objects) → at os (length os) ≡ none
at-length [] = refl
at-length (y ∷ os) = at-length os

objects_held-append :
    (os : Objects) (x : Option Object) (h : ℕ)
    → objects_held (os ++ (x ∷ [])) h ≡ objects_held os h + object_held x h
objects_held-append [] x h = omega arith
objects_held-append (y ∷ os) x h = omega (arith, objects_held-append os x h)

abbrev IsAlive : Option Object → Type 0
IsAlive none = Unit {0}
IsAlive (some o) = (0 < o.owners) × IsFit o.device

-- What one entry is after a write, with the owners that are counted then.
set-Counted :
    (c c' : ℕ → ℕ) (os : Objects) (i : ℕ) (o : Object) (x : Option Object)
    → Counted c os
    → at os i ≡ some o
    → owners_of x ≡ c' i
    → ((j : ℕ) → j ≢ i → c' j ≡ c j)
    → IsAlive x
    → Counted c' (set os i x)
set-Counted c c' os i o x v e own other good = record {
  counted = λ j. elim (Bool-cases (i == j)) [
    | inl same ↦ rw (at-set os i j o x e, same) (own ∙ ap c' (ground (arith, same)))
    | inr apart ↦
        rw (at-set os i j o x e, apart) (v.counted j ∙ sym (other j (ground (arith, apart))))
  ];
  alive = λ j o' q. elim (Bool-cases (i == j)) [
    | inl same ↦ (subst IsAlive (rw (at-set os i j o x e, same) at q) good).0
    | inr apart ↦ v.alive j o' (rw (at-set os i j o x e, apart) at q)
  ];
  fit = λ j o' q. elim (Bool-cases (i == j)) [
    | inl same ↦ (subst IsAlive (rw (at-set os i j o x e, same) at q) good).1
    | inr apart ↦ v.fit j o' (rw (at-set os i j o x e, apart) at q)
  ];
}

set-Kin :
    (os : Objects) (i : ℕ) (o : Object) (x : Option Object)
    → at os i ≡ some o
    → ((o' : Object) → x ≡ some o' → o'.device ≡ o.device)
    → Kin os (set os i x)
set-Kin os i o x e same_device j o' q = elim (Bool-cases (i == j)) [
  | inl same ↦
      let i=j : i ≡ j = ground (arith, same) in
      (o, subst (λ k. at os k ≡ some o) i=j e, same_device o' (rw (at-set os i j o x e, same) at q))
  | inr apart ↦ (o', rw (at-set os i j o x e, apart) at q, refl)
]

-- A pointer that can be copied.
pub share-Counted :
    (c : ℕ → ℕ) (os : Objects) (i : ℕ)
    → Counted c os
    → 0 < c i
    → Returns
        (λ os'.
          Counted (λ j. one i j + c j) os'
          × Kin os os'
          × ((h : ℕ) → objects_held os' h ≡ objects_held os h))
        (share os i)
unfolding share
share-Counted c os i v p = elim (Option-cases (at os i)) [
  | inl e ↦ absurd (omega (arith, v.counted i, ap owners_of e))
  | inr (o, e) ↦
      let x = some (record o { owners = o.owners + 1 }) in
      rw e (
        set-Counted c (λ j. one i j + c j) os i o x v e
            (ground (arith, v.counted i, ap owners_of e)) (λ j ne. ground (arith, ne))
            (omega arith, v.fit i o e),
        set-Kin os i o x e (λ o' q. cc),
        λ h. omega (arith, objects_held-set os i o x h e),
      )
]

-- A new object, whose place has no pointer yet.
pub make_shared-Counted :
    (c : ℕ → ℕ) (os : Objects) (d : Device)
    → Counted c os
    → IsFit d
    → let r = make_shared os d in
      Counted (λ j. one r.0 j + c j) r.1
      × (at r.1 r.0 ≡ some (record { device = d; owners = 1 }))
      × ((h : ℕ) → objects_held r.1 h ≡ objects_held os h + device_held d h)
unfolding make_shared
make_shared-Counted c os d v f =
    let x : Object = record { device = d; owners = 1 } in
    (
      record {
        counted = λ j. elim (Bool-cases (length os == j)) [
          | inl same ↦
              rw (at-append os j (some x), same)
                (let e : length os ≡ j = ground (arith, same) in
                  omega (
                    arith,
                    v.counted j,
                    ap (λ k. owners_of (at os k)) e,
                    ap owners_of (at-length os),
                  ))
          | inr apart ↦ rw (at-append os j (some x), apart) (omega (arith, v.counted j))
        ];
        alive = λ j o' q. elim (Bool-cases (length os == j)) [
          | inl same ↦ omega (arith, ap owners_of (rw (at-append os j (some x), same) at q))
          | inr apart ↦ v.alive j o' (rw (at-append os j (some x), apart) at q)
        ];
        fit = λ j o' q. elim (Bool-cases (length os == j)) [
          | inl same ↦ (subst IsAlive (rw (at-append os j (some x), same) at q) (omega arith, f)).1
          | inr apart ↦ v.fit j o' (rw (at-append os j (some x), apart) at q)
        ];
      },
      at-append os (length os) (some x) ∙ ground arith,
      λ h. omega (arith, objects_held-append os (some x) h),
    )

-- A call of the object that leaves it ready or closed.
pub update-Counted :
    (c : ℕ → ℕ) (os : Objects) (i : ℕ) (o : Object) (d : Device)
    → Counted c os
    → at os i ≡ some o
    → IsFit d
    → let os' = set os i (some (record o { device = d })) in
      Counted c os'
      × ((h : ℕ)
          → objects_held os' h + device_held o.device h ≡ objects_held os h + device_held d h)
update-Counted c os i o d v e f = (
  set-Counted c c os i o (some (record o { device = d })) v e (sym (ap owners_of e) ∙ v.counted i)
      (λ j ne. refl) (v.alive i o e, f),
  λ h. objects_held-set os i o (some (record o { device = d })) h e,
)

-- The end of a pointer.
pub release-Counted :
    (env : Env) (c c' : ℕ → ℕ) (os : Objects) (i : ℕ) (s : Sys env.World)
    → Counted c os
    → ((j : ℕ) → c j ≡ one i j + c' j)
    → Returns
        (λ r.
          Counted c' r.0
          × Kin os r.0
          × Conserves s.trace (objects_held os) r.1.trace (objects_held r.0))
        (release env os i s)
unfolding release
release-Counted env c c' os i s v less = elim (Option-cases (at os i)) [
  | inl e ↦ absurd (ground (arith, v.counted i, less i, ap owners_of e))
  | inr (o, e) ↦ elim (Bool-cases (o.owners == 1)) [
    | inl last ↦
        rw (e, release_found, last)
          (Returns->>= _ _ (destroy_device env o.device s) _
            (destroy_device_lem env o.device s (v.fit i o e).0)
            λ s' k. (
              set-Counted c c' os i o none v e
                  (ground (arith, v.counted i, less i, ap owners_of e, last))
                  (λ j ne. ground (arith, less j, ne)) tt,
              set-Kin os i o none e (λ o' q. cc),
              λ h n. omega (arith, k h n, objects_held-set os i o none h e),
            ))
    | inr more ↦
        let x = some (record o { owners = o.owners - 1 }) in
        rw (e, release_found, more)
          (
            set-Counted c c' os i o x v e (ground (arith, v.counted i, less i, ap owners_of e))
                (λ j ne. ground (arith, less j, ne))
                (ground (arith, v.alive i o e, more), v.fit i o e),
            set-Kin os i o x e (λ o' q. cc),
            λ h n. omega (arith, objects_held-set os i o x h e),
          )
  ]
]

pub Counted-same :
    (c c' : ℕ → ℕ) (os : Objects) → Counted c os → ((j : ℕ) → c j ≡ c' j) → Counted c' os
Counted-same c c' os v e = record { counted = λ j. v.counted j ∙ e j; alive = v.alive; fit = v.fit }
