-- ===== src/Grpc/Locks/Progress.antt =====
-- A step of a thread of the server, with the mutexes of src/camera_service.cc, leaves all threads
-- on time.
use mathlib.Core.Option.{some_inj}
use grpc_cplugplug_example.Base.{
  ℕ, zero, suc, ◌+◌, ◌-◌, ◌≤◌, ◌≡◌, refl, ap, sym, subst, ◌∙◌, inl, inr, arith, some, List, [], ◌∷◌,
  ◌++◌, map, map-append, append_assoc, get_elem?, set, false, Result, Within, Result-cases,
}
use grpc_cplugplug_example.Sdk.{Env}
use grpc_cplugplug_example.Grpc.Threads.{Stage, Answer, Shared}
use grpc_cplugplug_example.Grpc.Threads.Advances.{Rpc, asked, answered, pending, Any}
use grpc_cplugplug_example.Grpc.Locks.{Mutex, Code, leave, acquire, release, effect}
use grpc_cplugplug_example.Grpc.Locks.Calls.{next_code}
use grpc_cplugplug_example.Grpc.Locks.Mutexes.{unlock, same_mutex_refl}
use grpc_cplugplug_example.Grpc.Locks.Workers.{Worker, free, Machine, step_code}
use grpc_cplugplug_example.Grpc.Locks.Order.{Orderly}
use grpc_cplugplug_example.Grpc.Locks.OnTime.{
  sum, over, waits, OnTime, AllOnTime, next_code-Next, not-false,
}

module _ (env : Env) where
  -- The machine with all of its threads on time, and `total` steps left at most.
  pub record Due (goals : List (List Rpc)) (total : ℕ) (st : Machine env) : Type 0 where
    pub lefts : List ℕ
    pub on_time : AllOnTime env goals lefts st.workers
    pub few : sum lefts ≤ total

  pub AllOnTime-set :
      (gs : List (List Rpc)) (ns : List ℕ) (ws : List (Worker env)) (k : ℕ) (w w' : Worker env)
      → AllOnTime env gs ns ws
      → get_elem? ws k ≡ some w
      → ((g : List Rpc) (n : ℕ) → OnTime env g n w → (n' : ℕ) × (n' + 1 ≤ n) × OnTime env g n' w')
      → (ns' : List ℕ) × (sum ns' + 1 ≤ sum ns) × AllOnTime env gs ns' (set ws k w')
  AllOnTime-set [] [] [] k w w' all e f = absurd (cc e)
  AllOnTime-set [] [] (x ∷ ws) k w w' all e f = absurd all
  AllOnTime-set [] (n ∷ ns) ws k w w' all e f = absurd all
  AllOnTime-set (g ∷ gs) [] ws k w w' all e f = absurd all
  AllOnTime-set (g ∷ gs) (n ∷ ns) [] k w w' all e f = absurd all
  AllOnTime-set (g ∷ gs) (n ∷ ns) (x ∷ ws) zero w w' all e f =
      let r = f g n (subst (OnTime env g n) (some_inj.0 e) all.0) in
      (r.0 ∷ ns, omega (arith, r.1), (r.2, all.1))
  AllOnTime-set (g ∷ gs) (n ∷ ns) (x ∷ ws) (suc k) w w' all e f =
      let r = AllOnTime-set gs ns ws k w w' all.1 e f in (n ∷ r.0, omega (arith, r.1), (all.0, r.2))

  acquire-Orderly :
      (hs : List Mutex) (asks : List Rpc) (n : ℕ) (m : Mutex) (c : Code env)
      → Orderly env hs asks n (acquire m c)
      → (n' : ℕ) × (n ≡ suc n') × Orderly env (m ∷ hs) asks n' c
  acquire-Orderly hs asks zero m c o = absurd o
  acquire-Orderly hs asks (suc n) m c o = (n, refl, o.1)

  release-Orderly :
      (hs : List Mutex) (asks : List Rpc) (n : ℕ) (m : Mutex) (c : Code env)
      → Orderly env hs asks n (release m c)
      → (n' : ℕ) × (n ≡ suc n') × Orderly env (unlock m hs) asks n' c
  release-Orderly hs asks zero m c o = absurd o
  release-Orderly [] asks (suc n) m c o = absurd o
  release-Orderly (h ∷ hs) asks (suc n) m c o = (n, refl, rw (o.0, same_mutex_refl m) o.1)

  effect-Orderly :
      (hs : List Mutex) (asks : List Rpc) (n : ℕ) (A : Type 0) (c : A → Code env)
      (f : Shared env → Result (A × Shared env)) (a : A)
      → Orderly env hs asks n (effect A f c)
      → (n' : ℕ) × (n ≡ suc n') × Orderly env hs asks n' (c a)
  effect-Orderly hs asks zero A c f a o = absurd o
  effect-Orderly hs asks (suc n) A c f a o = (n, refl, o a)

  -- A step inside of a turn.
  OnTime-within :
      (g : List Rpc) (n : ℕ) (w : Worker env) (hs : List Mutex) (c : Code env)
      → (o : OnTime env g n w) → (n' : ℕ) × (o.steps ≡ suc n') × Orderly env hs o.asks n' c
      → (n' : ℕ) × (n' + 1 ≤ n) × OnTime env g n' (record w { held = hs; code = c })
  OnTime-within g n w hs c o (n', e, orderly) = (
    n - 1,
    omega (arith, e, o.enough),
    record {
      asks = o.asks;
      steps = n';
      orderly = orderly;
      enough = omega (arith, e, o.enough);
      to_answer = o.to_answer;
    },
  )

  -- A step from a turn into the next.
  OnTime-leave :
      (g : List Rpc) (n : ℕ) (w : Worker env) (k : ℕ) (stage : Stage) (answers : List Answer)
      → w.code ≡ leave stage answers
      → over env w.calls (leave stage answers) ≡ false
      → OnTime env g n w
      → (n' : ℕ) × (n' + 1 ≤ n)
        × OnTime env g n' (record {
          calls = (next_code env k w.calls stage).0;
          answers = w.answers ++ answers;
          held = w.held;
          code = (next_code env k w.calls stage).1;
        })
  OnTime-leave g n w k stage answers q busy o =
      let at_end = subst (Orderly env w.held o.asks o.steps) q o.orderly in
      let next = next_code-Next env k stage answers w.calls busy in
      (
        n - 1,
        omega (arith, next.fewer, at_end.1, o.enough),
        record {
          asks = next.asks;
          steps = next.steps;
          orderly = rw at_end.0 next.orderly;
          enough = omega (arith, next.fewer, at_end.1, o.enough);
          to_answer =
              let before = map answered w.answers in
              let left = map asked w.calls in
              ap (λ l. l ++ (next.asks ++ map asked (next_code env k w.calls stage).0))
                (map-append answered w.answers answers)
              ∙ append_assoc before (map answered answers) _
              ∙ ap (λ l. before ++ (map answered answers ++ l)) next.same
              ∙ ap (λ l. before ++ l)
                  (sym (append_assoc (map answered answers) (pending stage) left))
              ∙ ap (λ l. before ++ (l ++ left)) at_end.2
              ∙ o.to_answer;
        },
      )

  -- The machine behind a step of the thread at `k`.
  Due-set :
      (goals : List (List Rpc)) (total k : ℕ) (st : Machine env) (sh : Shared env)
      (w w' : Worker env)
      → Due goals total st
      → get_elem? st.workers k ≡ some w
      → ((g : List Rpc) (n : ℕ) → OnTime env g n w → (n' : ℕ) × (n' + 1 ≤ n) × OnTime env g n' w')
      → Due goals (total - 1) (record { shared = sh; workers = set st.workers k w' })
  Due-set goals total k st sh w w' d e f =
      let r = AllOnTime-set goals d.lefts st.workers k w w' d.on_time e f in
      record { lefts = r.0; on_time = r.2; few = omega (arith, r.1, d.few) }

  -- A thread that has a step to take, and need not wait, takes it.
  pub step_code-Due :
      (goals : List (List Rpc)) (total k : ℕ) (st : Machine env) (w : Worker env) (c : Code env)
      → Due goals total st
      → get_elem? st.workers k ≡ some w
      → w.code ≡ c
      → over env w.calls c ≡ false
      → waits env c st.workers ≡ false
      → Within Any (Due goals (total - 1)) (step_code env k w st c)
  unfolding step_code
  step_code-Due goals total k st w (leave stage answers) d e q busy ready =
      Due-set goals total k st st.shared w _ d e
        λ g n o. OnTime-leave g n w k stage answers q busy o
  step_code-Due goals total k st w (acquire m c) d e q busy ready =
      rw (not-false (free env m st.workers) ready) (
        Due-set goals total k st st.shared w _ d e λ g n o. OnTime-within g n w (m ∷ w.held) c o (
          acquire-Orderly w.held o.asks o.steps m c
            (subst (Orderly env w.held o.asks o.steps) q o.orderly)))
  step_code-Due goals total k st w (release m c) d e q busy ready =
      Due-set goals total k st st.shared w _ d e λ g n o.
        OnTime-within g n w (unlock m w.held) c o (
          release-Orderly w.held o.asks o.steps m c
            (subst (Orderly env w.held o.asks o.steps) q o.orderly))
  step_code-Due goals total k st w (effect A f c) d e q busy ready =
      elim (Result-cases (f st.shared)) [
        | inr (x, p) ↦ rw p tt
        | inl (r, p) ↦ rw p (
            Due-set goals total k st r.1 w _ d e λ g n o. OnTime-within g n w w.held (c r.0) o (
              effect-Orderly w.held o.asks o.steps A c f r.0
                (subst (Orderly env w.held o.asks o.steps) q o.orderly)))
      ]
