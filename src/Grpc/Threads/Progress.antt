-- ===== src/Grpc/Threads/Progress.antt =====
-- How many turns a thread needs for its calls.
use mathlib.Core.Option
use grpc_cplugplug_example.Base.{
  ℕ, zero, suc, ◌-◌, ◌*◌, ◌≤◌, ◌≡◌, ◌≢◌, refl, ap, sym, ◌∙◌, inl, inr, Option, some, List, [], ◌∷◌,
  ◌++◌, get_elem?, get_elem?-set_self, get_elem?-set_ne, map, append_assoc, length, ok, arith, ◌==◌,
  ==_iff, map-append, append-nil, get_elem?_bound, Within, Within->>=, Within-map, Within-both,
  Result-cases, Bool-cases, Option-cases,
}
use grpc_cplugplug_example.Sdk.{DeviceInfo, Env, Sys}
use grpc_cplugplug_example.Sdk.Laws.{Laws}
use grpc_cplugplug_example.Device.Converting.{Allocates}
use grpc_cplugplug_example.Grpc.Threads.Schedules.{Guarded, Accounted, run-Accounted}
use grpc_cplugplug_example.Grpc.Serving.{Call}
use grpc_cplugplug_example.Grpc.Threads.{
  Stage, idle, listing, looking, missing, opening, adding, holding, dropping, Thread, Shared,
  Turned, Server, begin, go_on, next_call, act, turn_of, turn, run, fresh, ready_thread,
}
use grpc_cplugplug_example.Grpc.Threads.Stages.{idle_cases, act-go_on}
use grpc_cplugplug_example.Grpc.Threads.Advances.{
  Any, stage_turns, turns_left, Rpc, asked, answered, pending, turns_of, Advances, begin-Advances,
  go_on-Advances,
}

module _ (env : Env) where
  -- A turn of a thread: its turns left fall, until there is none, and no call is lost.
  abbrev Progress : List Call → Stage → List Call × Turned env → Type 0
  Progress cs stage r =
      (turns_left r.0 r.1.0 ≤ turns_left cs stage - 1)
      × (map answered r.1.2 ++ (pending r.1.0 ++ map asked r.0) ≡ pending stage ++ map asked cs)

  in_call :
      (cs : List Call) (stage : Stage) (sh : Shared env)
      → stage ≢ idle
      → Within Any (Progress cs stage) (act env cs stage sh)
  in_call cs stage sh ne = rw (act-go_on env cs stage sh ne) (
      Within->>= Any (Advances env (stage_turns stage) (pending stage)) (Progress cs stage)
        (go_on env stage sh) (λ r. ok (cs, r)) (go_on-Advances env stage sh ne)
        λ r a. (
          omega (arith, a.0),
          sym (append_assoc (map answered r.2) (pending r.0) (map asked cs))
              ∙ ap (λ l. l ++ map asked cs) a.1,
        ))

  between : (cs : List Call) (sh : Shared env) → Within Any (Progress cs idle) (act env cs idle sh)
  unfolding act next_call
  between [] sh = (omega arith, refl)
  between (c ∷ cs) sh =
      Within->>= Any (Advances env 7 (asked c ∷ [])) (Progress (c ∷ cs) idle) (begin env c sh)
        (λ r. ok (cs, r)) (begin-Advances env c sh)
        λ r a. (
          omega (arith, a.0),
          sym (append_assoc (map answered r.2) (pending r.0) (map asked cs))
              ∙ ap (λ l. l ++ map asked cs) a.1,
        )

  act-Progress :
      (cs : List Call) (stage : Stage) (sh : Shared env)
      → Within Any (Progress cs stage) (act env cs stage sh)
  act-Progress cs stage sh = elim (idle_cases stage) [
    | inl e ↦ rw e (between cs sh)
    | inr ne ↦ in_call cs stage sh ne
  ]

  -- The thread at `k` ends after at most `n` turns, and has then answered `asks`.
  record Waits (k n : ℕ) (asks : List Rpc) (st : Server env) : Type 0 where
    thread : Thread
    there : get_elem? st.threads k ≡ some thread
    enough : turns_left thread.calls thread.stage ≤ n
    asks_left :
        map answered thread.answers ++ (pending thread.stage ++ map asked thread.calls) ≡ asks

  turn-Waits :
      (k n : ℕ) (asks : List Rpc) (st : Server env)
      → Waits k n asks st
      → Within Any (Waits k (n - 1) asks) (turn env k st)
  unfolding turn turn_of
  turn-Waits k n asks st w = rw w.there (
      Within->>= Any (Progress w.thread.calls w.thread.stage) (Waits k (n - 1) asks)
        (act env w.thread.calls w.thread.stage st.shared) _
        (act-Progress w.thread.calls w.thread.stage st.shared)
        λ r p. record {
          thread = record { calls = r.0; stage = r.1.0; answers = w.thread.answers ++ r.1.2 };
          there = get_elem?-set_self st.threads k _ (get_elem?_bound st.threads k w.thread w.there);
          enough = omega (arith, p.0, w.enough);
          asks_left = rw (map-append answered w.thread.answers r.1.2) (
              append_assoc (map answered w.thread.answers) (map answered r.1.2)
                (pending r.1.0 ++ map asked r.0)
              ∙ ap (λ l. map answered w.thread.answers ++ l) p.1
              ∙ w.asks_left);
        })

  turn-Waits_other :
      (j k n : ℕ) (asks : List Rpc) (st : Server env)
      → j ≢ k
      → Waits k n asks st
      → Within Any (Waits k n asks) (turn env j st)
  unfolding turn turn_of
  turn-Waits_other j k n asks st ne w = elim (Option-cases (get_elem? st.threads j)) [
    | inl e ↦ rw e w
    | inr (t, e) ↦ elim (Result-cases (act env t.calls t.stage st.shared)) [
      | inr (f, q) ↦ rw (e, q) tt
      | inl (r, q) ↦
          rw (e, q)
            (record {
              thread = w.thread;
              there = get_elem?-set_ne st.threads j k _ (λ e. ne (sym e)) ∙ w.there;
              enough = w.enough;
              asks_left = w.asks_left;
            })
    ]
  ]

  run-Waits :
      (k : ℕ) (asks : List Rpc) (ks : List ℕ) (n : ℕ) (st : Server env)
      → Waits k n asks st
      → n ≤ turns_of k ks
      → Within Any (Waits k 0 asks) (run env ks st)
  unfolding run
  run-Waits k asks [] n st w le = record {
    thread = w.thread;
    there = w.there;
    enough = omega (arith, w.enough, le);
    asks_left = w.asks_left;
  }
  run-Waits k asks (j ∷ ks) n st w le = elim (Bool-cases (j == k)) [
    | inl same ↦
        let e : j ≡ k = (==_iff j k).0 same in
        rw e (
          Within->>= Any (Waits k (n - 1) asks) (Waits k 0 asks) (turn env k st)
            (λ st'. run env ks st') (turn-Waits k n asks st w)
            λ st' w'. run-Waits k asks ks (n - 1) st' w' (ground (arith, le, same)))
    | inr other ↦
        Within->>= Any (Waits k n asks) (Waits k 0 asks) (turn env j st) (λ st'. run env ks st')
          (turn-Waits_other j k n asks st (λ e. cc ((==_iff j k).1 e, other)) w)
          λ st' w'. run-Waits k asks ks n st' w' (ground (arith, le, other))
  ]

  -- The thread at `k` has answered the calls in their order, and has no more to do.
  pub record Answered (k : ℕ) (cs : List Call) (st : Server env) : Type 0 where
    pub thread : Thread
    pub there : get_elem? st.threads k ≡ some thread
    pub no_calls : thread.calls ≡ []
    pub between : thread.stage ≡ idle
    pub answers : map answered thread.answers ≡ map asked cs

  Waits-Answered :
      (k : ℕ) (cs : List Call) (st : Server env) → Waits k 0 (map asked cs) st → Answered k cs st
  Waits-Answered k cs st w =
      let idle' = idle_of w.thread.stage (omega (arith, w.enough)) in
      let none_left = no_calls_of w.thread.calls (omega (arith, w.enough)) in
      record {
        thread = w.thread;
        there = w.there;
        no_calls = none_left;
        between = idle';
        answers =
            sym (append-nil (map answered w.thread.answers))
            ∙ (simp (idle', none_left) at w.asks_left);
      }
    where
      idle_of : (stage : Stage) → stage_turns stage ≤ 0 → stage ≡ idle
      idle_of idle le = refl
      idle_of (listing code) le = absurd (omega (arith, le))
      idle_of (looking sn b) le = absurd (omega (arith, le))
      idle_of (missing sn b) le = absurd (omega (arith, le))
      idle_of (opening sn b info) le = absurd (omega (arith, le))
      idle_of (adding sn b i) le = absurd (omega (arith, le))
      idle_of (holding sn b i) le = absurd (omega (arith, le))
      idle_of (dropping b i) le = absurd (omega (arith, le))

      no_calls_of : (cs : List Call) → length cs ≤ 0 → cs ≡ []
      no_calls_of [] le = refl
      no_calls_of (c ∷ cs) le = absurd (omega (arith, le))

  fresh-Waits :
      (calls : List (List Call)) (infos : List (Option DeviceInfo)) (s : Sys env.World) (k : ℕ)
      (cs : List Call)
      → get_elem? calls k ≡ some cs
      → Waits k (7 * length cs) (map asked cs) (fresh env calls infos s)
  unfolding fresh
  fresh-Waits calls infos s k cs e = record {
    thread = ready_thread cs;
    there = placed calls k e;
    enough = omega arith;
    asks_left = refl;
  }
    where
      placed :
          (calls : List (List Call)) (k : ℕ)
          → get_elem? calls k ≡ some cs
          → get_elem? (map ready_thread calls) k ≡ some (ready_thread cs)
      placed [] k e = absurd (cc e)
      placed (c ∷ calls) zero e = ap (Option.map ready_thread) e
      placed (c ∷ calls) (suc k) e = placed calls k e

  -- With an SDK that behaves as documented and an allocator that gives blocks of the size asked
  -- for, a server whose threads have these calls to answer, and in whose run the thread at `k`
  -- gets at least seven turns for each of its calls, in whatever order with the turns of the others:
  -- the process ends by an assertion, by an image of the full size of its buffer or by a counter that has
  -- come round, or after the run the thread has answered all of its calls, in their order and each
  -- by the answer that its kind asks for, and waits for the next.
  pub run-Answered :
      Laws env
      → Allocates env
      → (calls : List (List Call)) (infos : List (Option DeviceInfo)) (s : Sys env.World)
        (ks : List ℕ) (k : ℕ) (cs : List Call)
      → get_elem? calls k ≡ some cs
      → 7 * length cs ≤ turns_of k ks
      → Within Guarded (Answered k cs) (run env ks (fresh env calls infos s))
  run-Answered laws alloc calls infos s ks k cs e le =
      Within-both Any Guarded (Answered k cs) (Accounted env s)
        (run env ks (fresh env calls infos s))
        (Within-map Any (Waits k 0 (map asked cs)) (Answered k cs)
          (run env ks (fresh env calls infos s))
          (run-Waits k (map asked cs) ks (7 * length cs) (fresh env calls infos s)
            (fresh-Waits calls infos s k cs e) le)
          (Waits-Answered k cs))
        (run-Accounted env laws alloc calls infos s ks)
