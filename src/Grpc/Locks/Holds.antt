-- ===== src/Grpc/Locks/Holds.antt =====
-- The mutexes that the threads of the server hold, and what a step of one of them leaves of what the
-- mutexes of src/camera_service.cc guard.
use mathlib.Core.Option.{some_inj}
use grpc_cplugplug_example.Base.{
  ℕ, zero, suc, ◌≡◌, ◌≢◌, refl, ap, sym, ◌∙◌, ◌⊎◌, inl, inr, arith, some, List, [], ◌∷◌, get_elem?,
  set, Bool, true, false, Within, Result-cases, Bool-cases, Option-cases, subst,
}
use grpc_cplugplug_example.Sdk.{Env}
use grpc_cplugplug_example.Grpc.Threads.{Shared}
use grpc_cplugplug_example.Grpc.Threads.Advances.{Any}
use grpc_cplugplug_example.Grpc.Locks.{Mutex, same_mutex, Code, leave, acquire, release, effect}
use grpc_cplugplug_example.Grpc.Locks.Mutexes.{has, same_mutex_eq, has-unlock}
use grpc_cplugplug_example.Grpc.Locks.Workers.{Worker, free, Machine, step_code, step_of, step}
use grpc_cplugplug_example.Grpc.Locks.Writes.{Same, Same-refl}
use grpc_cplugplug_example.Grpc.Locks.Guards.{Guarded, next_code-Guarded}

module _ (env : Env) where
  -- Whether the thread at the place holds the mutex.
  abbrev pub holds : ℕ → Mutex → List (Worker env) → Bool
  holds k m [] = false
  holds zero m (w ∷ ws) = has m w.held
  holds (suc k) m (w ∷ ws) = holds k m ws

  abbrev pub AllGuarded : List (Worker env) → Type 0
  AllGuarded [] = Unit
  AllGuarded (w ∷ ws) = Guarded env w.held w.code × AllGuarded ws

  Guarded-at :
      (ws : List (Worker env)) (k : ℕ) (w : Worker env)
      → AllGuarded ws
      → get_elem? ws k ≡ some w
      → Guarded env w.held w.code
  Guarded-at [] k w all e = absurd (cc e)
  Guarded-at (x ∷ ws) zero w all e =
      subst (λ (y : Worker env). Guarded env y.held y.code) (some_inj.0 e) all.0
  Guarded-at (x ∷ ws) (suc k) w all e = Guarded-at ws k w all.1 e

  AllGuarded-set :
      (ws : List (Worker env)) (k : ℕ) (w : Worker env)
      → AllGuarded ws
      → Guarded env w.held w.code
      → AllGuarded (set ws k w)
  AllGuarded-set [] k w all g = tt
  AllGuarded-set (x ∷ ws) zero w all g = (g, all.1)
  AllGuarded-set (x ∷ ws) (suc k) w all g = (all.0, AllGuarded-set ws k w all.1 g)

  holds_at :
      (ws : List (Worker env)) (k : ℕ) (w : Worker env) (m : Mutex)
      → get_elem? ws k ≡ some w
      → holds k m ws ≡ has m w.held
  holds_at [] k w m e = absurd (cc e)
  holds_at (x ∷ ws) zero w m e = ap (λ (y : Worker env). has m y.held) (some_inj.0 e)
  holds_at (x ∷ ws) (suc k) w m e = holds_at ws k w m e

  holds-set_ne :
      (ws : List (Worker env)) (k j : ℕ) (w : Worker env) (m : Mutex)
      → j ≢ k
      → holds j m (set ws k w) ≡ holds j m ws
  holds-set_ne [] k j w m ne = refl
  holds-set_ne (x ∷ ws) zero zero w m ne = absurd (ne refl)
  holds-set_ne (x ∷ ws) zero (suc j) w m ne = refl
  holds-set_ne (x ∷ ws) (suc k) zero w m ne = refl
  holds-set_ne (x ∷ ws) (suc k) (suc j) w m ne = holds-set_ne ws k j w m (λ e. ne (ap suc e))

  holds-set_self :
      (ws : List (Worker env)) (k : ℕ) (w : Worker env) (m : Mutex)
      → holds k m (set ws k w) ≡ true
      → has m w.held ≡ true
  holds-set_self [] k w m e = absurd (cc e)
  holds-set_self (x ∷ ws) zero w m e = e
  holds-set_self (x ∷ ws) (suc k) w m e = holds-set_self ws k w m e

  pub holds-free :
      (ws : List (Worker env)) (k : ℕ) (m : Mutex) → free env m ws ≡ true → holds k m ws ≡ false
  holds-free [] k m e = refl
  holds-free (x ∷ ws) zero m e = ground arith
  holds-free (x ∷ ws) (suc k) m e = holds-free ws k m (ground arith)

  -- What a step of the thread at `k` leaves of the mutexes and of what they guard.
  pub record Moved (k : ℕ) (st st' : Machine env) : Type 0 where
    pub guarded : AllGuarded st'.workers
    pub others : (j : ℕ) (m : Mutex) → j ≢ k → holds j m st'.workers ≡ holds j m st.workers
    pub own :
        (m : Mutex)
        → holds k m st'.workers ≡ true
        → (holds k m st.workers ≡ true) ⊎ (free env m st.workers ≡ true)
    pub same : (m : Mutex) → holds k m st.workers ≡ false → Same env m st.shared st'.shared

  set-Moved :
      (k : ℕ) (st : Machine env) (sh : Shared env) (w w' : Worker env)
      → get_elem? st.workers k ≡ some w
      → AllGuarded st.workers
      → Guarded env w'.held w'.code
      → ((m : Mutex)
          → has m w'.held ≡ true
          → (has m w.held ≡ true) ⊎ (free env m st.workers ≡ true))
      → ((m : Mutex) → has m w.held ≡ false → Same env m st.shared sh)
      → Moved k st (record { shared = sh; workers = set st.workers k w' })
  set-Moved k st sh w w' e all g own same = record {
    guarded = AllGuarded-set st.workers k w' all g;
    others = λ j m ne. holds-set_ne st.workers k j w' m ne;
    own = λ m h. elim (own m (holds-set_self st.workers k w' m h)) [
      | inl before ↦ inl (holds_at st.workers k w m e ∙ before)
      | inr nobody ↦ inr nobody
    ];
    same = λ m h. same m (sym (holds_at st.workers k w m e) ∙ h);
  }

  stays-Moved : (k : ℕ) (st : Machine env) → AllGuarded st.workers → Moved k st st
  stays-Moved k st all = record {
    guarded = all;
    others = λ j m ne. refl;
    own = λ m h. inl h;
    same = λ m h. Same-refl env st.shared m;
  }

  step_code-Moved :
      (k : ℕ) (st : Machine env) (w : Worker env) (c : Code env)
      → get_elem? st.workers k ≡ some w
      → AllGuarded st.workers
      → Guarded env w.held c
      → Within Any (Moved k st) (step_code env k w st c)
  unfolding step_code
  step_code-Moved k st w (leave stage answers) e all g =
      set-Moved k st st.shared w _ e all (rw g (next_code-Guarded env k w.calls stage))
        (λ m h. inl h) (λ m h. Same-refl env st.shared m)
  step_code-Moved k st w (acquire m' c) e all g = elim (Bool-cases (free env m' st.workers)) [
    | inr taken ↦ rw taken (stays-Moved k st all)
    | inl free' ↦ rw free' (
        set-Moved k st st.shared w _ e all g
          (λ m h. elim (Bool-cases (same_mutex m' m)) [
            | inl same ↦ inr (rw (← same_mutex_eq m' m same) free')
            | inr other ↦ inl (rw other at h)
          ])
          (λ m h. Same-refl env st.shared m))
  ]
  step_code-Moved k st w (release m' c) e all g =
      set-Moved k st st.shared w _ e all g (λ m h. inl (has-unlock m m' w.held h))
        (λ m h. Same-refl env st.shared m)
  step_code-Moved k st w (effect A f c) e all g = elim (Result-cases (f st.shared)) [
    | inr (x, q) ↦ rw q tt
    | inl (r, q) ↦
        rw q (set-Moved k st r.1 w _ e all (g.1 r.0) (λ m h. inl h) (rw q at (g.0 st.shared)))
  ]

  pub step-Moved :
      (k : ℕ) (st : Machine env) → AllGuarded st.workers → Within Any (Moved k st) (step env k st)
  unfolding step step_of
  step-Moved k st all = elim (Option-cases (get_elem? st.workers k)) [
    | inl e ↦ rw e (stays-Moved k st all)
    | inr (w, e) ↦ rw e (step_code-Moved k st w w.code e all (Guarded-at st.workers k w all e))
  ]
