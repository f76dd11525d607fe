-- ===== src/Grpc/Threads/Schedules.antt =====
-- Runs of the server, for any order of the turns.
use grpc_cplugplug_example.Base.{
  ℕ, zero, suc, ◌+◌, ◌≡◌, refl, subst, ◌++◌, inl, inr, Option, none, some, List, [], ◌∷◌, get_elem?,
  set, map, Fault, bad_access, overflow, arith, Within, Within->>=, Option-cases,
}
use grpc_cplugplug_example.Sdk.{DeviceInfo, Env, Sys}
use grpc_cplugplug_example.Sdk.Laws.{Laws, Conserves}
use grpc_cplugplug_example.Device.Converting.{Allocates}
use grpc_cplugplug_example.Provider.Shared.{Objects}
use grpc_cplugplug_example.Provider.Shared.Heap.{objects_held, Counted, Counted-same}
use grpc_cplugplug_example.Grpc.Serving.{Call}
use grpc_cplugplug_example.Grpc.Threads.{
  Stage, idle, listing, looking, missing, opening, adding, holding, dropping, Thread, ready_thread,
  Turned, Server, act, turn_of, turn, run, fresh,
}
use grpc_cplugplug_example.Grpc.Threads.Owners.{
  threads_owned, map_owned, threads_owned-set, threads_owned-ready,
}
use grpc_cplugplug_example.Grpc.Threads.Turns.{StageBuffer, StageReady, FineTurn}
use grpc_cplugplug_example.Grpc.Threads.Acts.{act-FineTurn}

-- Every fault but an access outside of an object and an overflow.
abbrev pub Guarded : Fault → Type 0
Guarded bad_access = ⊥
Guarded overflow = ⊥
Guarded _ = Unit {0}

-- The buffer of each thread is valid.
abbrev pub Buffers : List Thread → Type 0
Buffers [] = Unit {0}
Buffers (t ∷ ts) = StageBuffer t.stage × Buffers ts

abbrev FoundBuffer : Option Thread → Type 0
FoundBuffer none = Unit {0}
FoundBuffer (some t) = StageBuffer t.stage

Buffers-get :
    (ts : List Thread) (k : ℕ) (t : Thread)
    → Buffers ts
    → get_elem? ts k ≡ some t
    → StageBuffer t.stage
Buffers-get [] k t v e = absurd (cc e)
Buffers-get (u ∷ ts) zero t v e = subst FoundBuffer e v.0
Buffers-get (u ∷ ts) (suc k) t v e = Buffers-get ts k t v.1 e

Buffers-set :
    (ts : List Thread) (k : ℕ) (t : Thread)
    → Buffers ts
    → StageBuffer t.stage
    → Buffers (set ts k t)
Buffers-set [] k t v b = tt
Buffers-set (u ∷ ts) zero t v b = (b, v.1)
Buffers-set (u ∷ ts) (suc k) t v b = (v.0, Buffers-set ts k t v.1 b)

Buffers-ready : (calls : List (List Call)) → Buffers (map ready_thread calls)
Buffers-ready [] = tt
Buffers-ready (cs ∷ calls) = (tt, Buffers-ready calls)

module _ (env : Env) where
  -- Between two turns: each object has as many owners as there are pointers to it, at least one, and
  -- none is pointed to that was deleted; each device is ready or closed; each buffer is valid;
  -- and each handle created since `s` is destroyed or held by an object.
  pub record Accounted (s : Sys env.World) (st : Server env) : Type 0 where
    pub counted :
        Counted
          (λ j. map_owned (st.shared).cameras_list j + threads_owned st.threads j)
          (st.shared).objects
    pub buffers : Buffers st.threads
    pub conserves :
        Conserves s.trace (λ h. 0) ((st.shared).sys).trace (objects_held (st.shared).objects)

  fresh-Accounted :
      (calls : List (List Call)) (infos : List (Option DeviceInfo)) (s : Sys env.World)
      → Accounted s (fresh env calls infos s)
  unfolding fresh
  fresh-Accounted calls infos s = record {
    counted = record {
      counted = λ j. omega (arith, threads_owned-ready calls j);
      alive = λ j o e. absurd (cc e);
      fit = λ j o e. absurd (cc e);
    };
    buffers = Buffers-ready calls;
    conserves = λ h n. refl;
  }

  module _ (laws : Laws env) (alloc : Allocates env) where
    StageReady-allowed : (os : Objects) (stage : Stage) → StageReady env laws alloc Guarded os stage
    StageReady-allowed os idle = tt
    StageReady-allowed os (listing code) = tt
    StageReady-allowed os (looking sn b) = tt
    StageReady-allowed os (missing sn b) = tt
    StageReady-allowed os (opening sn b info) = tt
    StageReady-allowed os (adding sn b i) = λ o e. inr tt
    StageReady-allowed os (holding sn b i) = λ o e. inr tt
    StageReady-allowed os (dropping b i) = tt

    turn-Accounted :
        (s : Sys env.World) (k : ℕ) (st : Server env)
        → Accounted s st
        → Within Guarded (Accounted s) (turn env k st)
    unfolding turn turn_of
    turn-Accounted s k st v = elim (Option-cases (get_elem? st.threads k)) [
      | inl e ↦ rw e v
      | inr (t, e) ↦
          let others : ℕ → ℕ = threads_owned (set st.threads k (ready_thread [])) in
          rw e (
            Within->>= Guarded
              (λ (r : List Call × Turned env). FineTurn env laws alloc Guarded others st.shared r.1)
              (Accounted s) (act env t.calls t.stage st.shared) _
              (act-FineTurn env laws alloc Guarded tt tt others t.calls t.stage st.shared
                (record {
                  counted =
                      Counted-same _ _ _ v.counted (λ j.
                        omega (arith, threads_owned-set st.threads k t (ready_thread []) j e));
                  buffer = Buffers-get st.threads k t v.buffers e;
                })
                (StageReady-allowed (st.shared).objects t.stage))
              λ r f.
                let t' : Thread = record {
                  calls = r.0;
                  stage = r.1.0;
                  answers = t.answers ++ r.1.2;
                } in
                record {
                  counted = Counted-same _ _ _ f.fine.counted (λ j. omega (
                    arith,
                    threads_owned-set st.threads k t (ready_thread []) j e,
                    threads_owned-set st.threads k t t' j e,
                  ));
                  buffers = Buffers-set st.threads k t' v.buffers f.fine.buffer;
                  conserves = λ h n. omega (arith, v.conserves h n, f.conserves h n);
                })
    ]

    run-Accounted_from :
        (s : Sys env.World) (ks : List ℕ) (st : Server env)
        → Accounted s st
        → Within Guarded (Accounted s) (run env ks st)
    unfolding run
    run-Accounted_from s [] st v = v
    run-Accounted_from s (k ∷ ks) st v =
        Within->>= Guarded (Accounted s) (Accounted s) (turn env k st) (λ st'. run env ks st')
          (turn-Accounted s k st v) λ st' v'. run-Accounted_from s ks st' v'

    -- With an SDK that behaves as documented and an allocator that gives blocks of the size asked
    -- for, whatever the threads of a server that starts with no open camera have to answer,
    -- and in whatever order they take their turns: none goes through a NULL camera or a pointer
    -- to a deleted device, and none touches memory outside of its buffers. The process ends at
    -- most by an assertion on the state of a camera, by an image of the full size of its buffer
    -- or by a counter that has come round. After any run that returns, each device that is alive
    -- has as many owners as there are pointers to it, and at least one; it is ready or closed;
    -- the buffers are valid; and each handle created is destroyed or held by a device that is alive.
    pub run-Accounted :
        (calls : List (List Call)) (infos : List (Option DeviceInfo)) (s : Sys env.World)
        (ks : List ℕ)
        → Within Guarded (Accounted s) (run env ks (fresh env calls infos s))
    run-Accounted calls infos s ks =
        run-Accounted_from s ks (fresh env calls infos s) (fresh-Accounted calls infos s)
