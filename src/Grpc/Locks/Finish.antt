-- ===== src/Grpc/Locks/Finish.antt =====
-- The end of a fair run of the server with the mutexes of src/camera_service.cc.
use grpc_cplugplug_example.Base.{
  ℕ, suc, ◌+◌, ◌-◌, ◌*◌, ◌≤◌, ◌<◌, ◌≡◌, refl, ap, sym, ◌∙◌, inl, inr, arith, Option, List, [], ◌∷◌,
  ◌++◌, map, append-nil, length, get_elem?_bound, true, ◌>>=◌, Within, Within->>=, Within-map,
  Result-cases,
}
use grpc_cplugplug_example.Sdk.{DeviceInfo, Env, Sys}
use grpc_cplugplug_example.Grpc.Serving.{Call}
use grpc_cplugplug_example.Grpc.Threads.{idle, Answer}
use grpc_cplugplug_example.Grpc.Threads.Advances.{Rpc, asked, answered, Any, turns_of}
use grpc_cplugplug_example.Grpc.Locks.{Mutex, Code, leave, acquire, release, effect}
use grpc_cplugplug_example.Grpc.Locks.Workers.{Worker, Machine, step, run, fresh, ready_worker}
use grpc_cplugplug_example.Grpc.Locks.Order.{Orderly}
use grpc_cplugplug_example.Grpc.Locks.OnTime.{sum, over, AllOnTime}
use grpc_cplugplug_example.Grpc.Locks.Progress.{Due}
use grpc_cplugplug_example.Grpc.Locks.Deadlock.{AllOver, AllOver-or-Active}
use grpc_cplugplug_example.Grpc.Locks.Fair.{round-Due, AllOver-run, no_steps_left}

-- The rounds, one after the other.
abbrev pub joined : List (List ℕ) → List ℕ
joined [] = []
joined (ks ∷ rounds) = ks ++ joined rounds

-- Every one of `n` threads has a step in every round.
abbrev pub AllFair : ℕ → List (List ℕ) → Type 0
AllFair n [] = Unit
AllFair n (ks ∷ rounds) = ((k : ℕ) → k < n → 1 ≤ turns_of k ks) × AllFair n rounds

abbrev pub all_calls : List (List Call) → ℕ
all_calls [] = 0
all_calls (cs ∷ calls) = length cs + all_calls calls

abbrev goals_of : List (List Call) → List (List Rpc)
goals_of calls = map (λ cs. map asked cs) calls

module _ (env : Env) where
  run-append :
      (ks js : List ℕ) (st : Machine env)
      → run env (ks ++ js) st ≡ (run env ks st >>= λ st'. run env js st')
  unfolding run
  run-append [] js st = refl
  run-append (k ∷ ks) js st = elim (Result-cases (step env k st)) [
    | inl (st', e) ↦ rw e (run-append ks js st')
    | inr (f, e) ↦ rw e refl
  ]

  AllOnTime-length :
      (gs : List (List Rpc)) (ns : List ℕ) (ws : List (Worker env))
      → AllOnTime env gs ns ws
      → length ws ≡ length gs
  AllOnTime-length [] [] [] all = refl
  AllOnTime-length [] [] (w ∷ ws) all = absurd all
  AllOnTime-length [] (n ∷ ns) ws all = absurd all
  AllOnTime-length (g ∷ gs) [] ws all = absurd all
  AllOnTime-length (g ∷ gs) (n ∷ ns) [] all = absurd all
  AllOnTime-length (g ∷ gs) (n ∷ ns) (w ∷ ws) all = ap suc (AllOnTime-length gs ns ws all.1)

  -- All threads are through, with the answers that were asked for.
  record Through (goals : List (List Rpc)) (st : Machine env) : Type 0 where
    all_over : AllOver env st.workers
    lefts : List ℕ
    on_time : AllOnTime env goals lefts st.workers

  rounds-Through :
      (goals : List (List Rpc)) (total : ℕ) (rounds : List (List ℕ)) (st : Machine env)
      → Due env goals total st
      → total ≤ length rounds
      → AllFair (length goals) rounds
      → Within Any (Through goals) (run env (joined rounds) st)
  unfolding run
  rounds-Through goals total [] st d le fair = record {
    all_over =
        no_steps_left env goals goals d.lefts st.workers d.on_time (omega (arith, d.few, le));
    lefts = d.lefts;
    on_time = d.on_time;
  }
  rounds-Through goals total (ks ∷ rounds) st d le fair =
      elim (AllOver-or-Active env goals d.lefts st.workers d.on_time) [
        | inl all ↦
            rw (AllOver-run env goals (ks ++ joined rounds) st all)
              (record { all_over = all; lefts = d.lefts; on_time = d.on_time })
        | inr a ↦ rw (run-append ks (joined rounds) st) (
            Within->>= Any (Due env goals (total - 1)) (Through goals) (run env ks st)
              (λ st'. run env (joined rounds) st')
              (round-Due env goals total ks st a d (
                fair.0 a.place (
                  omega (
                    arith,
                    get_elem?_bound st.workers a.place a.worker a.there,
                    AllOnTime-length goals d.lefts st.workers d.on_time,
                  ))))
              λ st' d'. rounds-Through goals (total - 1) rounds st' d' (omega (arith, le)) fair.1)
      ]

  -- Every thread has answered its calls, in their order, and holds no mutex.
  abbrev pub AllAnswered : List (List Call) → List (Worker env) → Type 0
  AllAnswered [] [] = Unit
  AllAnswered (cs ∷ calls) (w ∷ ws) =
      ((w.calls ≡ []) × (w.held ≡ []) × (map answered w.answers ≡ map asked cs))
      × AllAnswered calls ws
  AllAnswered _ _ = ⊥

  answered_at_end :
      (g : List Rpc) (hs : List Mutex) (asks : List Rpc) (steps : ℕ) (cs : List Call)
      (answers : List Answer) (c : Code env)
      → Orderly env hs asks steps c
      → over env cs c ≡ true
      → map answered answers ++ (asks ++ map asked cs) ≡ g
      → (cs ≡ []) × (hs ≡ []) × (map answered answers ≡ g)
  answered_at_end g hs asks steps [] answers (leave idle []) o e to_answer =
      (refl, o.0, sym (append-nil (map answered answers)) ∙ (rw (← o.2) at to_answer))
  answered_at_end g hs asks steps (c ∷ cs) answers (leave idle []) o e to_answer = absurd (cc e)
  answered_at_end g hs asks steps cs answers (leave stage as') o e to_answer = absurd (cc e)
  answered_at_end g hs asks steps cs answers (acquire m c) o e to_answer = absurd (cc e)
  answered_at_end g hs asks steps cs answers (release m c) o e to_answer = absurd (cc e)
  answered_at_end g hs asks steps cs answers (effect A f c) o e to_answer = absurd (cc e)

  Through-AllAnswered :
      (calls : List (List Call)) (ns : List ℕ) (ws : List (Worker env))
      → AllOnTime env (goals_of calls) ns ws
      → AllOver env ws
      → AllAnswered calls ws
  Through-AllAnswered [] [] [] all over_all = tt
  Through-AllAnswered [] [] (w ∷ ws) all over_all = absurd all
  Through-AllAnswered [] (n ∷ ns) ws all over_all = absurd all
  Through-AllAnswered (cs ∷ calls) [] ws all over_all = absurd all
  Through-AllAnswered (cs ∷ calls) (n ∷ ns) [] all over_all = absurd all
  Through-AllAnswered (cs ∷ calls) (n ∷ ns) (w ∷ ws) all over_all =
      let o = all.0 in
      (
        answered_at_end (map asked cs) w.held o.asks o.steps w.calls w.answers w.code o.orderly
            over_all.0 o.to_answer,
        Through-AllAnswered calls ns ws all.1 over_all.1,
      )

  fresh-OnTime :
      (calls : List (List Call))
      → (ns : List ℕ) × (sum ns ≡ 41 * all_calls calls)
        × AllOnTime env (goals_of calls) ns (map (ready_worker env) calls)
  fresh-OnTime [] = ([], refl, tt)
  fresh-OnTime (cs ∷ calls) =
      let r = fresh-OnTime calls in
      (
        41 * length cs ∷ r.0,
        omega (arith, r.1),
        (
          record {
            asks = [];
            steps = 0;
            orderly = (refl, omega arith, refl);
            enough = omega arith;
            to_answer = refl;
          },
          r.2,
        ),
      )

  -- The threads of the server answer these calls, with the mutexes of the provider and of the devices
  -- between them. In a run of rounds, in each of which every thread has at least one step, in any
  -- order and though a thread whose mutex is taken makes no use of its step, and which has 41
  -- rounds for each call of all threads: no deadlock is met. The process ends by a fault of a method
  -- that it called, or after the run every thread has answered all of its calls, in their order and
  -- each by the answer that its kind asks for, and no thread holds a mutex.
  pub run_fair-AllAnswered :
      (calls : List (List Call)) (infos : List (Option DeviceInfo)) (s : Sys env.World)
      (rounds : List (List ℕ))
      → 41 * all_calls calls ≤ length rounds
      → AllFair (length calls) rounds
      → Within Any
          (λ st. AllAnswered calls st.workers)
          (run env (joined rounds) (fresh env calls infos s))
  unfolding fresh
  run_fair-AllAnswered calls infos s rounds le fair =
      let r = fresh-OnTime calls in
      Within-map Any (Through (goals_of calls)) (λ st. AllAnswered calls st.workers)
        (run env (joined rounds) (fresh env calls infos s))
        (rounds-Through (goals_of calls) (41 * all_calls calls) rounds (fresh env calls infos s)
          (record { lefts = r.0; on_time = r.2; few = omega (arith, r.1) }) le
          (rw (length-map calls) fair))
        λ st t. Through-AllAnswered calls t.lefts st.workers t.on_time t.all_over
    where
      length-map : (calls : List (List Call)) → length (goals_of calls) ≡ length calls
      length-map [] = refl
      length-map (cs ∷ calls) = ap suc (length-map calls)
