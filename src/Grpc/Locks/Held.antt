-- ===== src/Grpc/Locks/Held.antt =====
-- The codes of src/camera_service.cc on a single thread that keeps account of the mutexes it holds.
use mathlib.Core.Option
use grpc_cplugplug_example.Base.{
  ℕ, zero, suc, ◌-◌, ◌≡◌, ◌≢◌, refl, ap, ◌∙◌, arith, inl, inr, false, Option, none, some, List, [],
  ◌∷◌, if◌then◌else◌, Result, ok, fault, ◌>>=◌, Result-cases, Bool-cases,
}
use grpc_cplugplug_example.Sdk.{Env}
use grpc_cplugplug_example.Grpc.Serving.{Call}
use grpc_cplugplug_example.Grpc.Threads.{
  Stage, idle, listing, looking, missing, opening, adding, holding, dropping, Answer, Shared, act,
}
use grpc_cplugplug_example.Grpc.Threads.Advances.{Rpc, asked, pending}
use grpc_cplugplug_example.Grpc.Locks.{
  Mutex, same_mutex, Code, leave, acquire, release, effect, exec,
}
use grpc_cplugplug_example.Grpc.Locks.Mutexes.{has, same_mutex_refl}
use grpc_cplugplug_example.Grpc.Locks.Calls.{stage_code, next_call_code, next_code}
use grpc_cplugplug_example.Grpc.Locks.Order.{
  Above, Orderly, leave_steps, stage_code-Orderly, call_code-Orderly,
}
use grpc_cplugplug_example.Grpc.Locks.Deadlock.{has-Above}
use grpc_cplugplug_example.Grpc.Locks.Alone.{exec-act}

module _ (env : Env) where
  -- The code without other threads, of a thread that holds the mutexes of the list, the one taken last
  -- in front. There is `none` where the thread would wait for a mutex that it holds itself, give back
  -- another one than the last it took, or leave with a mutex.
  unfoldable pub exec_held :
      List Mutex → Code env → Shared env → Option (Result (Stage × Shared env × List Answer))
  exec_held [] (leave stage answers) sh = some (ok (stage, sh, answers))
  exec_held (h ∷ held) (leave stage answers) sh = none
  exec_held held (acquire m c) sh =
      let rest = exec_held (m ∷ held) c sh in if has m held then none else rest
  exec_held [] (release m c) sh = none
  exec_held (h ∷ held) (release m c) sh =
      let rest = exec_held held c sh in if same_mutex h m then rest else none
  exec_held held (effect A f c) sh = elim (f sh) [
    | fault e ↦ some (fault e)
    | ok r ↦ exec_held held (c r.0) r.1
  ]

  Above-has : (m : Mutex) (hs : List Mutex) → Above m hs → has m hs ≡ false
  Above-has m hs a = elim (Bool-cases (has m hs)) [
    | inl e ↦ absurd (omega (arith, has-Above m m hs e a))
    | inr e ↦ e
  ]

  -- A code that keeps to the order of the mutexes gets through with them.
  Orderly-exec_held :
      (held : List Mutex) (asks : List Rpc) (n : ℕ) (c : Code env) (sh : Shared env)
      → Orderly env held asks n c
      → exec_held held c sh ≡ some (exec env c sh)
  unfolding exec_held exec
  Orderly-exec_held [] asks n (leave stage answers) sh o = refl
  Orderly-exec_held (h ∷ held) asks n (leave stage answers) sh o = absurd (cc (o.0))
  Orderly-exec_held held asks zero (acquire m c) sh o = absurd o
  Orderly-exec_held held asks (suc n) (acquire m c) sh o =
      rw (Above-has m held o.0) (Orderly-exec_held (m ∷ held) asks n c sh o.1)
  Orderly-exec_held held asks zero (release m c) sh o = absurd o
  Orderly-exec_held [] asks (suc n) (release m c) sh o = absurd o
  Orderly-exec_held (h ∷ held) asks (suc n) (release m c) sh o =
      rw (o.0, same_mutex_refl m) (Orderly-exec_held held asks n c sh o.1)
  Orderly-exec_held held asks zero (effect A f c) sh o = absurd o
  Orderly-exec_held held asks (suc n) (effect A f c) sh o = elim (Result-cases (f sh)) [
    | inl (r, e) ↦ rw e (Orderly-exec_held held asks n (c r.0) r.1 (o r.0))
    | inr (x, e) ↦ rw e refl
  ]

  stage_Orderly :
      (k : ℕ) (stage : Stage)
      → stage ≢ idle
      → (asks : List Rpc) × (n : ℕ) × Orderly env [] asks n (stage_code env k stage)
  stage_Orderly k stage ne =
      (pending stage, leave_steps stage [] - 1, stage_code-Orderly env k stage ne)

  next_code-Orderly :
      (k : ℕ) (cs : List Call) (stage : Stage)
      → (asks : List Rpc) × (n : ℕ) × Orderly env [] asks n (next_code env k cs stage).1
  unfolding next_code next_call_code
  next_code-Orderly k [] idle = ([], 0, (refl, omega arith, refl))
  next_code-Orderly k (c ∷ cs) idle = (asked c ∷ [], 40, call_code-Orderly env c)
  next_code-Orderly k cs (listing code) = stage_Orderly k (listing code) λ e. cc e
  next_code-Orderly k cs (looking sn b) = stage_Orderly k (looking sn b) λ e. cc e
  next_code-Orderly k cs (missing sn b) = stage_Orderly k (missing sn b) λ e. cc e
  next_code-Orderly k cs (opening sn b i) = stage_Orderly k (opening sn b i) λ e. cc e
  next_code-Orderly k cs (adding sn b i) = stage_Orderly k (adding sn b i) λ e. cc e
  next_code-Orderly k cs (holding sn b i) = stage_Orderly k (holding sn b i) λ e. cc e
  next_code-Orderly k cs (dropping b i) = stage_Orderly k (dropping b i) λ e. cc e

  -- A turn of a thread, written with every lock, unlock and step of the methods between them and
  -- run with no step of another thread in it: the thread never waits for a mutex that it holds
  -- itself, gives back what it took in the opposite order and ends the turn with no mutex. It does
  -- to the shared state and answers exactly what the turn of Grpc.Threads does and answers, it
  -- leads to the same stage, and it meets the same fault if there is one.
  pub exec_held-act :
      (k : ℕ) (cs : List Call) (stage : Stage) (sh : Shared env)
      → (let n = next_code env k cs stage in
          Option.map (λ m. m >>= λ r. ok (n.0, r)) (exec_held [] n.1 sh))
        ≡ some (act env cs stage sh)
  exec_held-act k cs stage sh =
      let n = next_code env k cs stage in
      let o = next_code-Orderly k cs stage in
      ap (Option.map (λ m. m >>= λ r. ok (n.0, r))) (Orderly-exec_held [] o.0 o.1 n.1 sh o.2)
      ∙ ap some (exec-act env k cs stage sh)
