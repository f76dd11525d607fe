-- ===== src/Grpc/Locks/OnTime.antt =====
-- The steps that the threads of the server have left, with the mutexes of src/camera_service.cc, and
-- what they go on with between two turns.

use grpc_cplugplug_example.Base.{
  ℕ, ◌+◌, ◌-◌, ◌*◌, ◌≤◌, ◌≡◌, ◌≢◌, refl, arith, List, [], ◌∷◌, ◌++◌, map, length, Bool, true, false,
  not,
}
use grpc_cplugplug_example.Sdk.{Env}
use grpc_cplugplug_example.Grpc.Serving.{Call}
use grpc_cplugplug_example.Grpc.Threads.{
  Stage, idle, listing, looking, missing, opening, adding, holding, dropping, Answer,
}
use grpc_cplugplug_example.Grpc.Threads.Advances.{Rpc, asked, answered, pending}
use grpc_cplugplug_example.Grpc.Locks.{Code, leave, acquire}
use grpc_cplugplug_example.Grpc.Locks.Calls.{stage_code, next_call_code, next_code}
use grpc_cplugplug_example.Grpc.Locks.Workers.{Worker, free}
use grpc_cplugplug_example.Grpc.Locks.Order.{
  leave_steps, Orderly, stage_code-Orderly, call_code-Orderly,
}

abbrev pub sum : List ℕ → ℕ
sum [] = 0
sum (n ∷ ns) = n + sum ns

pub not-false : (b : Bool) → not b ≡ false → b ≡ true
not-false true e = refl
not-false false e = absurd (cc e)

module _ (env : Env) where
  abbrev pub no_calls : List Call → Bool
  no_calls [] = true
  no_calls (c ∷ cs) = false

  -- Whether a thread has nothing left to do.
  abbrev pub over : List Call → Code env → Bool
  over cs (leave idle []) = no_calls cs
  over cs c = false

  -- Whether a thread waits for a mutex that is taken.
  abbrev pub waits : Code env → List (Worker env) → Bool
  waits (acquire m c) ws = not (free env m ws)
  waits c ws = false

  -- A thread that is through with all of its calls after `n` steps of its own, and will then have given
  -- the answers that its calls ask for.
  pub record OnTime (goal : List Rpc) (n : ℕ) (w : Worker env) : Type 0 where
    pub asks : List Rpc
    pub steps : ℕ
    pub orderly : Orderly env w.held asks steps w.code
    pub enough : steps + 41 * length w.calls ≤ n
    pub to_answer : map answered w.answers ++ (asks ++ map asked w.calls) ≡ goal

  abbrev pub AllOnTime : List (List Rpc) → List ℕ → List (Worker env) → Type 0
  AllOnTime [] [] [] = Unit
  AllOnTime (g ∷ gs) (n ∷ ns) (w ∷ ws) = OnTime g n w × AllOnTime gs ns ws
  AllOnTime _ _ _ = ⊥

  -- What a thread goes on with between two turns.
  pub record Next (stage : Stage) (answers : List Answer) (cs : List Call)
      (n : List Call × Code env) : Type 0 where
    pub asks : List Rpc
    pub steps : ℕ
    pub orderly : Orderly env [] asks steps n.1
    pub fewer : steps + 41 * length n.0 + 1 ≤ leave_steps stage answers + 41 * length cs
    pub same : asks ++ map asked n.0 ≡ pending stage ++ map asked cs

  stage-Next :
      (k : ℕ) (stage : Stage) (answers : List Answer) (cs : List Call)
      → stage ≢ idle
      → leave_steps stage answers ≡ leave_steps stage []
      → 1 ≤ leave_steps stage []
      → Next stage answers cs (cs, stage_code env k stage)
  stage-Next k stage answers cs ne e le = record {
    asks = pending stage;
    steps = leave_steps stage [] - 1;
    orderly = stage_code-Orderly env k stage ne;
    fewer = omega (arith, e, le);
    same = refl;
  }

  pub next_code-Next :
      (k : ℕ) (stage : Stage) (answers : List Answer) (cs : List Call)
      → over cs (leave stage answers) ≡ false
      → Next stage answers cs (next_code env k cs stage)
  unfolding next_code next_call_code
  next_code-Next k idle [] [] e = absurd (cc e)
  next_code-Next k idle (a ∷ as') [] e = record {
    asks = [];
    steps = 0;
    orderly = (refl, omega arith, refl);
    fewer = omega arith;
    same = refl;
  }
  next_code-Next k idle answers (c ∷ cs) e = record {
    asks = asked c ∷ [];
    steps = 40;
    orderly = call_code-Orderly env c;
    fewer = omega arith;
    same = refl;
  }
  next_code-Next k (listing code) as' cs e =
      stage-Next k (listing code) as' cs (λ q. cc q) refl (omega arith)
  next_code-Next k (looking sn b) as' cs e =
      stage-Next k (looking sn b) as' cs (λ q. cc q) refl (omega arith)
  next_code-Next k (missing sn b) as' cs e =
      stage-Next k (missing sn b) as' cs (λ q. cc q) refl (omega arith)
  next_code-Next k (opening sn b i) as' cs e =
      stage-Next k (opening sn b i) as' cs (λ q. cc q) refl (omega arith)
  next_code-Next k (adding sn b i) as' cs e =
      stage-Next k (adding sn b i) as' cs (λ q. cc q) refl (omega arith)
  next_code-Next k (holding sn b i) as' cs e =
      stage-Next k (holding sn b i) as' cs (λ q. cc q) refl (omega arith)
  next_code-Next k (dropping b i) as' cs e =
      stage-Next k (dropping b i) as' cs (λ q. cc q) refl (omega arith)
