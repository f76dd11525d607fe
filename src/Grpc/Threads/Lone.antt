-- ===== src/Grpc/Threads/Lone.antt =====
-- Runs of a server with one thread.
use grpc_cplugplug_example.Base.{
  ℕ, zero, suc, ◌≡◌, refl, ◌++◌, Option, some, List, [], ◌∷◌, Fault, size_assertion, zero_division,
  arith, Within, Within->>=, Within-both,
}
use grpc_cplugplug_example.Sdk.{DeviceInfo, Env, Sys}
use grpc_cplugplug_example.Sdk.Laws.{Laws}
use grpc_cplugplug_example.Device.Converting.{Allocates}
use grpc_cplugplug_example.Grpc.Serving.{Call}
use grpc_cplugplug_example.Grpc.Threads.{
  Thread, ready_thread, Shared, Turned, Server, act, turn_of, turn, run, fresh,
}
use grpc_cplugplug_example.Grpc.Threads.Turns.{StageReady, Fine, FineTurn}
use grpc_cplugplug_example.Grpc.Threads.Acts.{act-FineTurn}
use grpc_cplugplug_example.Grpc.Threads.Schedules.{Guarded, Accounted, run-Accounted}

-- An image of the full size of its buffer, and a counter that has come round.
abbrev pub SizeOrCounter : Fault → Type 0
SizeOrCounter size_assertion = Unit {0}
SizeOrCounter zero_division = Unit {0}
SizeOrCounter _ = ⊥

module _ (env : Env) (laws : Laws env) (alloc : Allocates env) where
  -- What one thread alone keeps.
  record Lone (st : Server env) : Type 0 where
    thread : Thread
    only : st.threads ≡ thread ∷ []
    fine : Fine env laws alloc SizeOrCounter (λ j. 0) thread.stage st.shared
    ready : StageReady env laws alloc SizeOrCounter (st.shared).objects thread.stage

  act-Lone :
      (t : Thread) (sh : Shared env)
      → Fine env laws alloc SizeOrCounter (λ j. 0) t.stage sh
      → StageReady env laws alloc SizeOrCounter sh.objects t.stage
      → Within SizeOrCounter Lone
          (turn_of env 0 (some t) (record { shared = sh; threads = t ∷ [] }))
  unfolding turn_of
  act-Lone t sh v ready =
      Within->>= SizeOrCounter
        (λ (r : List Call × Turned env). FineTurn env laws alloc SizeOrCounter (λ j. 0) sh r.1) Lone
        (act env t.calls t.stage sh) _
        (act-FineTurn env laws alloc SizeOrCounter tt tt (λ j. 0) t.calls t.stage sh v ready)
        λ r f. record {
          thread = record { calls = r.0; stage = r.1.0; answers = t.answers ++ r.1.2 };
          only = refl;
          fine = f.fine;
          ready = f.ready;
        }

  turn-Lone : (k : ℕ) (st : Server env) → Lone st → Within SizeOrCounter Lone (turn env k st)
  unfolding turn
  turn-Lone zero st v = simp v.only (act-Lone v.thread st.shared v.fine v.ready)
  turn-Lone (suc k) st v = simp v.only v

  run-Lone : (ks : List ℕ) (st : Server env) → Lone st → Within SizeOrCounter Lone (run env ks st)
  unfolding run
  run-Lone [] st v = v
  run-Lone (k ∷ ks) st v =
      Within->>= SizeOrCounter Lone Lone (turn env k st) (λ st'. run env ks st') (turn-Lone k st v)
        λ st' v'. run-Lone ks st' v'

  fresh-Lone :
      (cs : List Call) (infos : List (Option DeviceInfo)) (s : Sys env.World)
      → Lone (fresh env (cs ∷ []) infos s)
  unfolding fresh
  fresh-Lone cs infos s = record {
    thread = ready_thread cs;
    only = refl;
    fine = record {
      counted = record {
        counted = λ j. omega arith;
        alive = λ j o e. absurd (cc e);
        fit = λ j o e. absurd (cc e);
      };
      buffer = tt;
    };
    ready = tt;
  }

  -- With an SDK that behaves as documented and an allocator that gives blocks of the size asked
  -- for, a server of one thread does not even meet the assertions on the state of a camera: it ends
  -- the process at most by an image of the full size of its buffer or by a counter that has come
  -- round. What a run that returns leaves is accounted for as with more threads.
  pub run_alone-Accounted :
      (cs : List Call) (infos : List (Option DeviceInfo)) (s : Sys env.World) (ks : List ℕ)
      → Within SizeOrCounter (Accounted env s) (run env ks (fresh env (cs ∷ []) infos s))
  run_alone-Accounted cs infos s ks =
      Within-both Guarded SizeOrCounter (Accounted env s) Lone
        (run env ks (fresh env (cs ∷ []) infos s))
        (run-Accounted env laws alloc (cs ∷ []) infos s ks)
        (run-Lone ks (fresh env (cs ∷ []) infos s) (fresh-Lone cs infos s))
