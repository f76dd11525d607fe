-- ===== src/Grpc/Locks/Tests.antt =====
-- Runs of the server's threads, with their mutexes, on the SDK with one camera.
use mathlib.Core.Option
use grpc_cplugplug_example.Base.{
  ℕ, zero, suc, map, ◌<◌, ◌≤◌, ◌≡◌, refl, none, some, List, [], ◌∷◌, true, Result, ok, fault, ◌>>=◌,
  replicate, arith, Within, length,
}
use grpc_cplugplug_example.Base.Int.{pos}
use grpc_cplugplug_example.Buffer
use grpc_cplugplug_example.Text.{c_str, to_upper, toupper}
use grpc_cplugplug_example.Sdk.{Env}
use grpc_cplugplug_example.Sdk.Sample.{one_camera, at_start, gige_device}
use grpc_cplugplug_example.Provider.{find_info}
use grpc_cplugplug_example.Provider.Map.{lookup}
use grpc_cplugplug_example.Grpc.{ImageRequest, image_buffer, content_of}
use grpc_cplugplug_example.Grpc.Serving.{Call, reset_all, image}
use grpc_cplugplug_example.Grpc.Threads.{Shared, missing, act}
use grpc_cplugplug_example.Grpc.Threads.Advances.{Any, turns_of}
use grpc_cplugplug_example.Grpc.Locks.{Mutex, find_key, read_info}
use grpc_cplugplug_example.Grpc.Locks.Calls.{next_code, new_buffer}
use grpc_cplugplug_example.Grpc.Locks.Held.{exec_held, exec_held-act}
use grpc_cplugplug_example.Grpc.Locks.Workers.{Machine, run, fresh}
use grpc_cplugplug_example.Grpc.Locks.Finish.{joined, AllFair, AllAnswered, run_fair-AllAnswered}
use grpc_cplugplug_example.Grpc.Locks.Holds.{holds}
use grpc_cplugplug_example.Grpc.Locks.Writes.{Same}
use grpc_cplugplug_example.Grpc.Locks.Exclusion.{run_guards}

abbrev some_image : ImageRequest
some_image = record {
  sn = b'k' ∷ b'1' ∷ b'2' ∷ [];
  width = pos 640;
  height = pos 480;
  channel = pos 3;
}

-- Two clients, with one call each for the same camera.
abbrev two_calls : List (List Call)
two_calls = (image some_image ∷ []) ∷ (image some_image ∷ []) ∷ []

abbrev in_turns : List (List ℕ)
in_turns = replicate 82 (0 ∷ 1 ∷ [])

in_turns-AllFair : (n : ℕ) → AllFair 2 (replicate n (0 ∷ 1 ∷ []))
in_turns-AllFair zero = tt
in_turns-AllFair (suc n) = (each, in_turns-AllFair n)
  where
    each : (k : ℕ) → k < 2 → 1 ≤ turns_of k (0 ∷ 1 ∷ [])
    each zero h = omega arith
    each (suc zero) h = omega arith
    each (suc (suc k)) h = absurd (omega (arith, h))

run_fair-AllAnswered_example :
    Within Any
      (λ st. AllAnswered one_camera two_calls st.workers)
      (run one_camera
        (joined in_turns)
        (fresh one_camera two_calls (some gige_device ∷ []) at_start))
run_fair-AllAnswered_example =
    run_fair-AllAnswered one_camera two_calls (some gige_device ∷ []) at_start in_turns
      (omega arith) (in_turns-AllFair 82)

abbrev both_begin : List ℕ
both_begin = 0 ∷ 0 ∷ 0 ∷ 1 ∷ 1 ∷ 1 ∷ 1 ∷ []

run_guards_example :
    Within Any
      (λ st.
        ((j k : ℕ) (m : Mutex)
          → holds one_camera j m st.workers ≡ true
          → holds one_camera k m st.workers ≡ true
          → j ≡ k)
        × ((k : ℕ) (m : Mutex) (js : List ℕ)
            → holds one_camera k m st.workers ≡ true
            → turns_of k js ≡ 0
            → Within Any
                (λ st'.
                  Same one_camera m st.shared st'.shared
                  × (holds one_camera k m st'.workers ≡ true))
                (run one_camera js st)))
      (run one_camera both_begin (fresh one_camera two_calls (some gige_device ∷ []) at_start))
run_guards_example = run_guards one_camera two_calls (some gige_device ∷ []) at_start both_begin

abbrev found_only : Shared one_camera
found_only = record {
  camera_info_list = some gige_device ∷ [];
  cameras_list = [];
  objects = [];
  sys = at_start;
}

exec_held-act_example :
    (let n = next_code one_camera 1 [] (missing some_image.sn Buffer.init) in
      Option.map (λ m. m >>= λ r. ok (n.0, r)) (exec_held one_camera [] n.1 found_only))
    ≡ some (act one_camera [] (missing some_image.sn Buffer.init) found_only)
exec_held-act_example = exec_held-act one_camera 1 [] (missing some_image.sn Buffer.init) found_only

-- The SDK with one camera, and no memory for the frames.
abbrev without_memory : Env
without_memory = record one_camera { malloc = λ w n. none }

abbrev returned : Result (Machine without_memory) → List ℕ
returned (ok st) = map (λ w. length w.answers) st.workers
returned (fault e) = []

-- A fair run, with no camera to be found, in which both clients are answered.
two_answered :
    returned (
      run without_memory (joined in_turns) (
        fresh without_memory
          ((reset_all ∷ image some_image ∷ []) ∷ (image some_image ∷ []) ∷ [])
          []
          at_start))
    ≡ 2 ∷ 1 ∷ []
unfolding run fresh next_code find_key read_info new_buffer image_buffer Buffer.ensure_size
    Buffer.ensure_size_copy Buffer.init Buffer.grow lookup find_info c_str to_upper toupper
    content_of
two_answered = refl
