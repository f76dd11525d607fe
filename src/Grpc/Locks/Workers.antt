-- ===== src/Grpc/Locks/Workers.antt =====
-- The threads of the gRPC server in the codes of src/camera_service.cc. A step of a thread takes or
-- gives back a mutex, or changes the shared state; a thread whose mutex is taken waits.
use grpc_cplugplug_example.Base.{
  ℕ, ◌++◌, Option, none, some, List, [], ◌∷◌, map, get_elem?, set, Bool, true, not, ◌&&◌,
  if◌then◌else◌, Result, ok, ◌>>=◌,
}
use grpc_cplugplug_example.Sdk.{DeviceInfo, Env, Sys}
use grpc_cplugplug_example.Grpc.Serving.{Call}
use grpc_cplugplug_example.Grpc.Threads.{idle, Answer, Shared}
use grpc_cplugplug_example.Grpc.Locks.{Mutex, Code, leave, acquire, release, effect}
use grpc_cplugplug_example.Grpc.Locks.Calls.{next_code}
use grpc_cplugplug_example.Grpc.Locks.Mutexes.{has, unlock}

module _ (env : Env) where
  -- A thread with the calls it has left, its answers, the mutexes it holds, and what is left of its
  -- turn.
  pub record Worker : Type 1 where
    pub calls : List Call
    pub answers : List Answer
    pub held : List Mutex
    pub code : Code env

  -- Whether no thread holds the mutex.
  abbrev pub free : Mutex → List Worker → Bool
  free m [] = true
  free m (w ∷ ws) = not (has m w.held) && free m ws

  pub record Machine : Type 1 where
    pub shared : Shared env
    pub workers : List Worker

  -- A step of the thread at `k`. Without its mutex it stays where it is.
  unfoldable pub step_code : ℕ → Worker → Machine → Code env → Result Machine
  step_code k w st (leave stage answers) =
      let n = next_code env k w.calls stage in
      ok (record st {
        workers =
            set st.workers k
              (record { calls = n.0; answers = w.answers ++ answers; held = w.held; code = n.1 });
      })
  step_code k w st (acquire m c) =
      if free m st.workers
      then ok (record st { workers = set st.workers k (record w { held = m ∷ w.held; code = c }) })
      else ok st
  step_code k w st (release m c) =
      ok (record st { workers = set st.workers k (record w { held = unlock m w.held; code = c }) })
  step_code k w st (effect A f c) = f st.shared >>= λ r.
      ok (record { shared = r.1; workers = set st.workers k (record w { code = c r.0 }) })

  unfoldable pub step_of : ℕ → Option Worker → Machine → Result Machine
  unfolding step_code
  step_of k none st = ok st
  step_of k (some w) st = step_code k w st w.code

  unfoldable pub step : ℕ → Machine → Result Machine
  unfolding step_of
  step k st = step_of k (get_elem? st.workers k) st

  -- The steps, in the order in which they are taken.
  unfoldable pub run : List ℕ → Machine → Result Machine
  unfolding step
  run [] st = ok st
  run (k ∷ ks) st = step k st >>= λ st'. run ks st'

  abbrev pub ready_worker : List Call → Worker
  ready_worker cs = record { calls = cs; answers = []; held = []; code = leave idle [] }

  -- A server with no camera open, whose threads have these calls to answer.
  unfoldable pub fresh : List (List Call) → List (Option DeviceInfo) → Sys env.World → Machine
  fresh calls infos s = record {
    shared = record { camera_info_list = infos; cameras_list = []; objects = []; sys = s };
    workers = map ready_worker calls;
  }
