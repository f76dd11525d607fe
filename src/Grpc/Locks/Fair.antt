-- ===== src/Grpc/Locks/Fair.antt =====
-- Runs of the threads of the server with the mutexes of src/camera_service.cc, in which every thread
-- gets steps again and again.
use mathlib.Core.Option.{some_inj}
use grpc_cplugplug_example.Base.{
  ℕ, zero, suc, ◌+◌, ◌-◌, ◌*◌, ◌≤◌, ◌≡◌, refl, ap, sym, ◌∙◌, ◌⊎◌, inl, inr, arith, some, List, [],
  ◌∷◌, ◌++◌, append-nil, length, get_elem?, set, Bool, true, false, not, ◌==◌, ==_iff, ok, Within,
  Within->>=, Within-map, Bool-cases, Option-cases, subst,
}
use grpc_cplugplug_example.Sdk.{Env}
use grpc_cplugplug_example.Grpc.Serving.{Call}
use grpc_cplugplug_example.Grpc.Threads.{idle, Answer}
use grpc_cplugplug_example.Grpc.Threads.Advances.{Rpc, Any, turns_of}
use grpc_cplugplug_example.Grpc.Locks.{Mutex, Code, leave, acquire, release, effect}
use grpc_cplugplug_example.Grpc.Locks.Calls.{next_call_code, next_code}
use grpc_cplugplug_example.Grpc.Locks.Workers.{Worker, free, Machine, step_code, step_of, step, run}
use grpc_cplugplug_example.Grpc.Locks.Order.{Orderly}
use grpc_cplugplug_example.Grpc.Locks.OnTime.{sum, no_calls, over, waits, AllOnTime}
use grpc_cplugplug_example.Grpc.Locks.Progress.{Due, step_code-Due}
use grpc_cplugplug_example.Grpc.Locks.Deadlock.{Active, AllOver}

set_same :
    {A : Type 1} (xs : List A) (k : ℕ) (x y : A) → get_elem? xs k ≡ some x → y ≡ x → set xs k y ≡ xs
set_same [] k x y e q = refl
set_same (z ∷ xs) zero x y e q = ap (λ h. h ∷ xs) (q ∙ sym (some_inj.0 e))
set_same (z ∷ xs) (suc k) x y e q = ap (λ l. z ∷ l) (set_same xs k x y e q)

not-true : (b : Bool) → not b ≡ true → b ≡ false
not-true false e = refl
not-true true e = absurd (cc e)

module _ (env : Env) where
  same_worker :
      (k : ℕ) (cs : List Call) (answers : List Answer) (hs : List Mutex) (c : Code env)
      → c ≡ leave idle []
      → no_calls env cs ≡ true
      → ◌≡◌ {A = Worker env}
          (record {
            calls = (next_code env k cs idle).0;
            answers = answers ++ [];
            held = hs;
            code = (next_code env k cs idle).1;
          })
          (record { calls = cs; answers = answers; held = hs; code = c })
  unfolding next_code next_call_code
  same_worker k [] answers hs c e none_left = rw (append-nil answers, e) refl
  same_worker k (c' ∷ cs) answers hs c e none_left = absurd (cc none_left)

  -- A thread that is through stays as it is.
  over_stays :
      (k : ℕ) (st : Machine env) (w : Worker env) (c : Code env)
      → get_elem? st.workers k ≡ some w
      → w.code ≡ c
      → over env w.calls c ≡ true
      → step_code env k w st c ≡ ok st
  unfolding step_code
  over_stays k st w (leave idle []) e q through =
      ap (λ l. ok (record st { workers = l }))
        (set_same st.workers k w _ e (same_worker k w.calls w.answers w.held w.code q through))
  over_stays k st w (leave stage answers) e q through = absurd (cc through)
  over_stays k st w (acquire m c) e q through = absurd (cc through)
  over_stays k st w (release m c) e q through = absurd (cc through)
  over_stays k st w (effect A f c) e q through = absurd (cc through)

  waits_stays :
      (k : ℕ) (st : Machine env) (w : Worker env) (c : Code env)
      → waits env c st.workers ≡ true
      → step_code env k w st c ≡ ok st
  unfolding step_code
  waits_stays k st w (acquire m c) e = rw (not-true (free env m st.workers) e) refl
  waits_stays k st w (leave stage answers) e = absurd (cc e)
  waits_stays k st w (release m c) e = absurd (cc e)
  waits_stays k st w (effect A f c) e = absurd (cc e)

  -- A step is one of a thread that is active, or it changes nothing.
  step_cases :
      (k : ℕ) (st : Machine env)
      → (step env k st ≡ ok st)
        ⊎ ((w : Worker env) × (get_elem? st.workers k ≡ some w)
            × (over env w.calls w.code ≡ false)
            × (waits env w.code st.workers ≡ false)
            × (step env k st ≡ step_code env k w st w.code))
  unfolding step step_of
  step_cases k st = elim (Option-cases (get_elem? st.workers k)) [
    | inl e ↦ inl (rw e refl)
    | inr (w, e) ↦ elim (Bool-cases (over env w.calls w.code)) [
      | inl through ↦ inl (rw e (over_stays k st w w.code e refl through))
      | inr busy ↦ elim (Bool-cases (waits env w.code st.workers)) [
        | inl waiting ↦ inl (rw e (waits_stays k st w w.code waiting))
        | inr ready ↦ inr (w, e, busy, ready, rw e refl)
      ]
    ]
  ]

  module _ (goals : List (List Rpc)) where
    Due-le :
        (total total' : ℕ) (st : Machine env)
        → total ≤ total'
        → Due env goals total st
        → Due env goals total' st
    Due-le total total' st le d = record {
      lefts = d.lefts;
      on_time = d.on_time;
      few = omega (arith, d.few, le);
    }

    pub step-Due :
        (total k : ℕ) (st : Machine env)
        → Due env goals total st
        → Within Any (Due env goals total) (step env k st)
    step-Due total k st d = elim (step_cases k st) [
      | inl stays ↦ rw stays d
      | inr (w, e, busy, ready, q) ↦ rw q (
          Within-map Any (Due env goals (total - 1)) (Due env goals total)
            (step_code env k w st w.code)
            (step_code-Due env goals total k st w w.code d e refl busy ready)
            λ st' d'. Due-le (total - 1) total st' (omega arith) d')
    ]

    pub run-Due :
        (total : ℕ) (ks : List ℕ) (st : Machine env)
        → Due env goals total st
        → Within Any (Due env goals total) (run env ks st)
    unfolding run
    run-Due total [] st d = d
    run-Due total (k ∷ ks) st d =
        Within->>= Any (Due env goals total) (Due env goals total) (step env k st)
          (λ st'. run env ks st') (step-Due total k st d) λ st' d'. run-Due total ks st' d'

    Active-step :
        (total : ℕ) (st : Machine env) (a : Active env st.workers)
        → Due env goals total st
        → Within Any (Due env goals (total - 1)) (step env a.place st)
    unfolding step step_of
    Active-step total st a d = rw a.there (
        step_code-Due env goals total a.place st a.worker a.worker.code d a.there refl a.busy
          a.ready)

    then_run :
        (total k : ℕ) (ks : List ℕ) (st : Machine env)
        → Within Any (Due env goals total) (step env k st)
        → Within Any (Due env goals total) (run env (k ∷ ks) st)
    unfolding run
    then_run total k ks st h =
        Within->>= Any (Due env goals total) (Due env goals total) (step env k st)
          (λ st'. run env ks st') h λ st' d'. run-Due total ks st' d'

    -- In a round in which an active thread has its turn, a step is taken.
    pub round-Due :
        (total : ℕ) (ks : List ℕ) (st : Machine env) (a : Active env st.workers)
        → Due env goals total st
        → 1 ≤ turns_of a.place ks
        → Within Any (Due env goals (total - 1)) (run env ks st)
    unfolding run
    round-Due total [] st a d le = absurd (omega (arith, le))
    round-Due total (k ∷ ks) st a d le = elim (Bool-cases (k == a.place)) [
      | inl same ↦
          then_run (total - 1) k ks st (rw ((==_iff k a.place).0 same) (Active-step total st a d))
      | inr other ↦ elim (step_cases k st) [
        | inl stays ↦ rw stays (round-Due total ks st a d (rw other at le))
        | inr (w, e, busy, ready, q) ↦
            then_run (total - 1) k ks st
              (rw q (step_code-Due env goals total k st w w.code d e refl busy ready))
      ]
    ]

    pub AllOver-run :
        (ks : List ℕ) (st : Machine env) → AllOver env st.workers → run env ks st ≡ ok st
    unfolding run
    AllOver-run [] st all = refl
    AllOver-run (k ∷ ks) st all = elim (step_cases k st) [
      | inl stays ↦ rw stays (AllOver-run ks st all)
      | inr (w, e, busy, ready, q) ↦ absurd (cc (over_at st.workers k w all e, busy))
    ]
      where
        over_at :
            (ws : List (Worker env)) (k : ℕ) (w : Worker env)
            → AllOver env ws
            → get_elem? ws k ≡ some w
            → over env w.calls w.code ≡ true
        over_at [] k w all e = absurd (cc e)
        over_at (x ∷ ws) zero w all e =
            subst (λ y. over env y.calls y.code ≡ true) (some_inj.0 e) all.0
        over_at (x ∷ ws) (suc k) w all e = over_at ws k w all.1 e

    -- A thread that is not through has a step left.
    busy_left :
        (g : List Rpc) (n : ℕ) (hs : List Mutex) (asks : List Rpc) (steps : ℕ) (cs : List Call)
        (c : Code env)
        → Orderly env hs asks steps c
        → over env cs c ≡ false
        → 1 ≤ steps + 41 * length cs
    busy_left g n hs asks steps [] (leave idle []) o busy = absurd (cc busy)
    busy_left g n hs asks steps (c' ∷ cs) (leave idle []) o busy = omega arith
    busy_left g n hs asks steps cs (leave stage answers) o busy = omega (arith, o.1)
    busy_left g n hs asks zero cs (acquire m c) o busy = absurd o
    busy_left g n hs asks (suc steps) cs (acquire m c) o busy = omega arith
    busy_left g n hs asks zero cs (release m c) o busy = absurd o
    busy_left g n hs asks (suc steps) cs (release m c) o busy = omega arith
    busy_left g n hs asks zero cs (effect A f c) o busy = absurd o
    busy_left g n hs asks (suc steps) cs (effect A f c) o busy = omega arith

    pub no_steps_left :
        (gs : List (List Rpc)) (ns : List ℕ) (ws : List (Worker env))
        → AllOnTime env gs ns ws
        → sum ns ≤ 0
        → AllOver env ws
    no_steps_left [] [] [] all le = tt
    no_steps_left [] [] (w ∷ ws) all le = absurd all
    no_steps_left [] (n ∷ ns) ws all le = absurd all
    no_steps_left (g ∷ gs) [] ws all le = absurd all
    no_steps_left (g ∷ gs) (n ∷ ns) [] all le = absurd all
    no_steps_left (g ∷ gs) (n ∷ ns) (w ∷ ws) all le = elim (Bool-cases (over env w.calls w.code)) [
      | inl through ↦ (through, no_steps_left gs ns ws all.1 (omega (arith, le)))
      | inr busy ↦
          let o = all.0 in
          absurd (
            omega (
              arith,
              le,
              o.enough,
              busy_left g n w.held o.asks o.steps w.calls w.code o.orderly busy,
            ))
    ]
