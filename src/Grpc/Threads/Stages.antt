-- ===== src/Grpc/Threads/Stages.antt =====
-- A turn between two calls and one in a call, of the threads of src/camera_grpc_server.cc.
use grpc_cplugplug_example.Base.{◌≡◌, ◌≢◌, refl, ◌⊎◌, inl, inr, List, ok, ◌>>=◌}
use grpc_cplugplug_example.Sdk.{Env}
use grpc_cplugplug_example.Grpc.Serving.{Call}
use grpc_cplugplug_example.Grpc.Threads.{
  Stage, idle, listing, looking, missing, opening, adding, holding, dropping, Shared, go_on, act,
}

pub idle_cases : (stage : Stage) → (stage ≡ idle) ⊎ (stage ≢ idle)
idle_cases idle = inl refl
idle_cases (listing code) = inr (λ e. cc e)
idle_cases (looking sn b) = inr (λ e. cc e)
idle_cases (missing sn b) = inr (λ e. cc e)
idle_cases (opening sn b info) = inr (λ e. cc e)
idle_cases (adding sn b i) = inr (λ e. cc e)
idle_cases (holding sn b i) = inr (λ e. cc e)
idle_cases (dropping b i) = inr (λ e. cc e)

pub act-go_on :
    (env : Env) (cs : List Call) (stage : Stage) (sh : Shared env)
    → stage ≢ idle
    → act env cs stage sh ≡ (go_on env stage sh >>= λ r. ok (cs, r))
unfolding act
act-go_on env cs idle sh ne = absurd (ne refl)
act-go_on env cs (listing code) sh ne = refl
act-go_on env cs (looking sn b) sh ne = refl
act-go_on env cs (missing sn b) sh ne = refl
act-go_on env cs (opening sn b info) sh ne = refl
act-go_on env cs (adding sn b i) sh ne = refl
act-go_on env cs (holding sn b i) sh ne = refl
act-go_on env cs (dropping b i) sh ne = refl
