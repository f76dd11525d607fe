-- ===== src/Grpc/Threads/Keys.antt =====
-- The keys of the map of open devices, `cameras_list_` of src/camera_service.cc.
use mathlib.Core.Option.{some_inj}
use grpc_cplugplug_example.Base.{
  ℕ, zero, suc, ◌≡◌, subst, inl, inr, Option, none, some, List, [], ◌∷◌, map, get_elem?, set,
  Within, Within->>=, Within-map, Result-cases, Bool-cases, Option-cases,
}
use grpc_cplugplug_example.Base.Int.{nonzero}
use grpc_cplugplug_example.Buffer.{Buff}
use grpc_cplugplug_example.Text.{c_str, to_upper}
use grpc_cplugplug_example.Text.Compare.{to_upper_idem}
use grpc_cplugplug_example.Sdk.{DeviceInfo, Env, Sys}
use grpc_cplugplug_example.Device
use grpc_cplugplug_example.Device.Picture
use grpc_cplugplug_example.Provider.{destroy_device, find_info}
use grpc_cplugplug_example.Provider.Map.{lookup}
use grpc_cplugplug_example.Provider.Shared.{Object, at, share, release}
use grpc_cplugplug_example.Grpc.{image_buffer}
use grpc_cplugplug_example.Grpc.Serving.{Call, camera_metas, reset_all, image}
use grpc_cplugplug_example.Grpc.Threads.{
  Stage, idle, listing, looking, missing, opening, adding, holding, dropping, Thread, Shared,
  Turned, Server, finish, begin, look_object, look, search_info, open_device, release_old,
  add_device, shoot, go_on, next_call, act, turn_of, turn, run, fresh, ready_thread,
}
use grpc_cplugplug_example.Grpc.Threads.Keyed.{
  Keyed, erase-Keyed, insert-Keyed, keys_upper, Keyed-apart,
}
use grpc_cplugplug_example.Grpc.Threads.Stages.{idle_cases, act-go_on}
use grpc_cplugplug_example.Grpc.Threads.Advances.{Any}

-- The serial number that a thread works with is in upper case.
abbrev StageKeyed : Stage → Type 0
StageKeyed (looking sn b) = to_upper sn ≡ sn
StageKeyed (missing sn b) = to_upper sn ≡ sn
StageKeyed (opening sn b info) = to_upper sn ≡ sn
StageKeyed (adding sn b i) = to_upper sn ≡ sn
StageKeyed _ = Unit

abbrev ThreadsKeyed : List Thread → Type 0
ThreadsKeyed [] = Unit
ThreadsKeyed (t ∷ ts) = StageKeyed t.stage × ThreadsKeyed ts

ThreadsKeyed-get :
    (ts : List Thread) (k : ℕ) (t : Thread)
    → ThreadsKeyed ts
    → get_elem? ts k ≡ some t
    → StageKeyed t.stage
ThreadsKeyed-get [] k t all e = absurd (cc e)
ThreadsKeyed-get (x ∷ ts) zero t all e =
    subst (λ (y : Thread). StageKeyed y.stage) (some_inj.0 e) all.0
ThreadsKeyed-get (x ∷ ts) (suc k) t all e = ThreadsKeyed-get ts k t all.1 e

ThreadsKeyed-set :
    (ts : List Thread) (k : ℕ) (t : Thread)
    → ThreadsKeyed ts
    → StageKeyed t.stage
    → ThreadsKeyed (set ts k t)
ThreadsKeyed-set [] k t all h = tt
ThreadsKeyed-set (x ∷ ts) zero t all h = (h, all.1)
ThreadsKeyed-set (x ∷ ts) (suc k) t all h = (all.0, ThreadsKeyed-set ts k t all.1 h)

module _ (env : Env) where
  abbrev KeyedTurn : Turned env → Type 0
  KeyedTurn r = StageKeyed r.0 × Keyed r.1.cameras_list

  begin-Keyed :
      (c : Call) (sh : Shared env) → Keyed sh.cameras_list → Within Any KeyedTurn (begin env c sh)
  unfolding begin
  begin-Keyed camera_metas sh h = (tt, h)
  begin-Keyed reset_all sh h = (tt, h)
  begin-Keyed (image q) sh h = elim (Result-cases (image_buffer env sh.sys)) [
    | inl (b, e) ↦ rw e (to_upper_idem q.sn, h)
    | inr (f, e) ↦ rw e tt
  ]

  look-Keyed :
      (sn : List ℕ) (b : Buff) (o : Option ℕ) (sh : Shared env)
      → to_upper sn ≡ sn
      → Keyed sh.cameras_list
      → Within Any KeyedTurn (look env sn b o sh)
  unfolding look look_object
  look-Keyed sn b none sh u h = (u, h)
  look-Keyed sn b (some i) sh u h = elim (Option-cases (at sh.objects i)) [
    | inl e ↦ rw e tt
    | inr (o, e) ↦ elim (Bool-cases (Device.is_shutdown o.device)) [
      | inl gone ↦ elim (Result-cases (release env sh.objects i sh.sys)) [
        | inl (r, q) ↦ rw (e, gone, q) (u, erase-Keyed sn sh.cameras_list h)
        | inr (f, q) ↦ rw (e, gone, q) tt
      ]
      | inr here ↦ elim (Result-cases (share sh.objects i)) [
        | inl (os, q) ↦ rw (e, here, q) (tt, h)
        | inr (f, q) ↦ rw (e, here, q) tt
      ]
    ]
  ]

  search_info-Keyed :
      (sn : List ℕ) (b : Buff) (o : Option DeviceInfo) (sh : Shared env)
      → to_upper sn ≡ sn
      → Keyed sh.cameras_list
      → KeyedTurn (search_info env sn b o sh)
  unfolding search_info finish
  search_info-Keyed sn b none sh u h = (tt, h)
  search_info-Keyed sn b (some info) sh u h = (u, h)

  open_device-Keyed :
      (sn : List ℕ) (b : Buff) (info : DeviceInfo) (sh : Shared env)
      → to_upper sn ≡ sn
      → Keyed sh.cameras_list
      → Within Any KeyedTurn (open_device env sn b info sh)
  unfolding open_device finish
  open_device-Keyed sn b info sh u h =
      elim (Result-cases (Device.start env (Device.init env) info sh.sys)) [
        | inr (f, e) ↦ rw e tt
        | inl (r, e) ↦ elim (Bool-cases (nonzero r.0)) [
          | inr fine ↦ rw (e, fine) (u, h)
          | inl failed ↦ elim (Result-cases (destroy_device env r.1 r.2)) [
            | inl (s', q) ↦ rw (e, failed, q) (tt, h)
            | inr (f, q) ↦ rw (e, failed, q) tt
          ]
        ]
      ]

  add_device-Keyed :
      (sn : List ℕ) (b : Buff) (i : ℕ) (sh : Shared env)
      → to_upper sn ≡ sn
      → Keyed sh.cameras_list
      → Within Any KeyedTurn (add_device env sn b i sh)
  unfolding add_device
  add_device-Keyed sn b i sh u h = elim (Result-cases (share sh.objects i)) [
    | inr (f, e) ↦ rw e tt
    | inl (os, e) ↦ elim (Result-cases (release_old env (lookup sn sh.cameras_list) os sh.sys)) [
      | inl (r, q) ↦ rw (e, q) (tt, insert-Keyed sn i sh.cameras_list u h)
      | inr (f, q) ↦ rw (e, q) tt
    ]
  ]

  shoot-Keyed :
      (b : Buff) (i : ℕ) (o : Option Object) (sh : Shared env)
      → Keyed sh.cameras_list
      → Within Any KeyedTurn (shoot env b i o sh)
  unfolding shoot
  shoot-Keyed b i none sh h = tt
  shoot-Keyed b i (some o) sh h =
      elim (Result-cases (Picture.take_picture env o.device none b sh.sys)) [
        | inl (r, e) ↦ rw e (tt, h)
        | inr (f, e) ↦ rw e tt
      ]

  go_on-Keyed :
      (stage : Stage) (sh : Shared env)
      → StageKeyed stage
      → Keyed sh.cameras_list
      → Within Any KeyedTurn (go_on env stage sh)
  unfolding go_on finish
  go_on-Keyed idle sh u h = (tt, h)
  go_on-Keyed (listing code) sh u h = (tt, h)
  go_on-Keyed (looking sn b) sh u h = look-Keyed sn b (lookup sn sh.cameras_list) sh u h
  go_on-Keyed (missing sn b) sh u h =
      search_info-Keyed sn b (find_info env sh.camera_info_list (c_str sn)) sh u h
  go_on-Keyed (opening sn b info) sh u h = open_device-Keyed sn b info sh u h
  go_on-Keyed (adding sn b i) sh u h = add_device-Keyed sn b i sh u h
  go_on-Keyed (holding sn b i) sh u h = shoot-Keyed b i (at sh.objects i) sh h
  go_on-Keyed (dropping b i) sh u h = elim (Result-cases (release env sh.objects i sh.sys)) [
    | inl (r, e) ↦ rw e (tt, h)
    | inr (f, e) ↦ rw e tt
  ]

  next_call-Keyed :
      (cs : List Call) (sh : Shared env)
      → Keyed sh.cameras_list
      → Within Any (λ r. KeyedTurn r.1) (next_call env cs sh)
  unfolding next_call
  next_call-Keyed [] sh h = (tt, h)
  next_call-Keyed (c ∷ cs) sh h =
      Within->>= Any KeyedTurn (λ (r : List Call × Turned env). KeyedTurn r.1) (begin env c sh) _
        (begin-Keyed c sh h) λ r k. k

  act-Keyed :
      (cs : List Call) (stage : Stage) (sh : Shared env)
      → StageKeyed stage
      → Keyed sh.cameras_list
      → Within Any (λ r. KeyedTurn r.1) (act env cs stage sh)
  unfolding act
  act-Keyed cs stage sh u h = elim (idle_cases stage) [
    | inl e ↦ rw e (next_call-Keyed cs sh h)
    | inr ne ↦ rw (act-go_on env cs stage sh ne) (
        Within->>= Any KeyedTurn (λ (r : List Call × Turned env). KeyedTurn r.1)
          (go_on env stage sh) _ (go_on-Keyed stage sh u h) λ r k. k)
  ]

  abbrev ServerKeyed : Server env → Type 0
  ServerKeyed st = ThreadsKeyed st.threads × Keyed st.shared.cameras_list

  turn-Keyed : (k : ℕ) (st : Server env) → ServerKeyed st → Within Any ServerKeyed (turn env k st)
  unfolding turn turn_of
  turn-Keyed k st h = elim (Option-cases (get_elem? st.threads k)) [
    | inl e ↦ rw e h
    | inr (t, e) ↦ rw e (
        Within->>= Any (λ (r : List Call × Turned env). KeyedTurn r.1) ServerKeyed
          (act env t.calls t.stage st.shared) _
          (act-Keyed t.calls t.stage st.shared (ThreadsKeyed-get st.threads k t h.0 e) h.1)
          λ r q. (ThreadsKeyed-set st.threads k _ h.0 q.0, q.1))
  ]

  run-Keyed :
      (ks : List ℕ) (st : Server env) → ServerKeyed st → Within Any ServerKeyed (run env ks st)
  unfolding run
  run-Keyed [] st h = h
  run-Keyed (k ∷ ks) st h =
      Within->>= Any ServerKeyed ServerKeyed (turn env k st) (λ st'. run env ks st')
        (turn-Keyed k st h) λ st' h'. run-Keyed ks st' h'

-- The threads of the server answer these calls, with their turns in any order, and an assertion or
-- another fault may end the process. In every state that is reached, all keys of the map of open
-- devices are in upper case, and no two of its entries have keys that are the same up to the case of
-- their letters.
pub run_keys :
    (env : Env) (calls : List (List Call)) (infos : List (Option DeviceInfo)) (s : Sys env.World)
    (ks : List ℕ)
    → Within Any
        (λ st.
          (a b : ℕ) (k l : List ℕ) (i j : ℕ)
          → get_elem? st.shared.cameras_list a ≡ some (k, i)
          → get_elem? st.shared.cameras_list b ≡ some (l, j)
          → (to_upper k ≡ k) × (to_upper k ≡ to_upper l → a ≡ b))
        (run env ks (fresh env calls infos s))
unfolding fresh
run_keys env calls infos s ks =
    Within-map Any (ServerKeyed env) _ (run env ks (fresh env calls infos s))
      (run-Keyed env ks (fresh env calls infos s) (all calls, tt))
      λ st h a b k l i j e q. (
        keys_upper st.shared.cameras_list a k i h.1 e,
        Keyed-apart st.shared.cameras_list a b k l i j h.1 e q,
      )
  where
    all : (calls : List (List Call)) → ThreadsKeyed (map ready_thread calls)
    all [] = tt
    all (cs ∷ calls) = (tt, all calls)
