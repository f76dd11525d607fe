-- ===== src/Grpc/Threads/Advances.antt =====
-- What a turn in a call leaves to do, of the calls of src/camera_grpc_server.cc.
use grpc_cplugplug_example.Base.{
  ℕ, suc, ◌+◌, ◌*◌, ◌≤◌, ◌≡◌, ◌≢◌, refl, inl, inr, Option, none, some, List, [], ◌∷◌, ◌++◌, map,
  length, Fault, arith, ◌==◌, if◌then◌else◌, Within, Result-cases, Bool-cases,
}
use grpc_cplugplug_example.Base.Int.{nonzero}
use grpc_cplugplug_example.Buffer.{Buff}
use grpc_cplugplug_example.Text.{c_str}
use grpc_cplugplug_example.Sdk.{DeviceInfo, Env}
use grpc_cplugplug_example.Device
use grpc_cplugplug_example.Device.Picture
use grpc_cplugplug_example.Device.{is_shutdown}
use grpc_cplugplug_example.Provider.{destroy_device, find_info}
use grpc_cplugplug_example.Provider.Map.{lookup}
use grpc_cplugplug_example.Provider.Shared.{Object, at, share, release}
use grpc_cplugplug_example.Grpc.{image_buffer}
use grpc_cplugplug_example.Grpc.Serving.{Call, camera_metas, reset_all, image}
use grpc_cplugplug_example.Grpc.Threads.{
  Stage, idle, listing, looking, missing, opening, adding, holding, dropping, Shared, Turned,
  Answer, metas, picture, reset_done, finish, begin, look_object, look, search_info, open_device,
  release_old, add_device, shoot, go_on,
}

-- Any fault.
abbrev pub Any : Fault → Type 0
Any e = Unit {0}

-- The turns that a call takes at most from a stage on.
abbrev pub stage_turns : Stage → ℕ
stage_turns idle = 0
stage_turns (listing code) = 1
stage_turns (looking sn b) = 6
stage_turns (missing sn b) = 5
stage_turns (opening sn b info) = 4
stage_turns (adding sn b i) = 3
stage_turns (holding sn b i) = 2
stage_turns (dropping b i) = 1

-- And those of the calls that are left.
abbrev pub turns_left : List Call → Stage → ℕ
turns_left cs stage = 7 * length cs + stage_turns stage

-- The three calls, without what is asked for.
pub data Rpc : Type 0 where
  get_camera_metas reset get_image : Rpc

abbrev pub asked : Call → Rpc
asked camera_metas = get_camera_metas
asked reset_all = reset
asked (image q) = get_image

abbrev pub answered : Answer → Rpc
answered (metas ms) = get_camera_metas
answered reset_done = reset
answered (picture r) = get_image

-- The call that is being answered.
abbrev pub pending : Stage → List Rpc
pending idle = []
pending (listing code) = get_camera_metas ∷ []
pending _ = get_image ∷ []

abbrev pub turns_of : ℕ → List ℕ → ℕ
turns_of k [] = 0
turns_of k (j ∷ ks) = if j == k then suc (turns_of k ks) else turns_of k ks

module _ (env : Env) where
  -- A turn in a call of at most `n` turns, or its last one.
  abbrev pub Advances : ℕ → List Rpc → Turned env → Type 0
  Advances n asks r = (stage_turns r.0 + 1 ≤ n) × (map answered r.2 ++ pending r.0 ≡ asks)

  pub begin-Advances :
      (c : Call) (sh : Shared env) → Within Any (Advances 7 (asked c ∷ [])) (begin env c sh)
  unfolding begin
  begin-Advances camera_metas sh = (omega arith, refl)
  begin-Advances reset_all sh = (omega arith, refl)
  begin-Advances (image q) sh = elim (Result-cases (image_buffer env sh.sys)) [
    | inl (b, e) ↦ rw e (omega arith, refl)
    | inr (f, e) ↦ rw e tt
  ]

  look-Advances :
      (sn : List ℕ) (b : Buff) (o : Option ℕ) (sh : Shared env)
      → Within Any (Advances 6 (get_image ∷ [])) (look env sn b o sh)
  unfolding look look_object
  look-Advances sn b none sh = (omega arith, refl)
  look-Advances sn b (some i) sh = object (at sh.objects i)
    where
      object :
          (o : Option Object)
          → Within Any (Advances 6 (get_image ∷ [])) (look_object env sn b i o sh)
      object none = tt
      object (some o) = elim (Bool-cases (is_shutdown o.device)) [
        | inl gone ↦ elim (Result-cases (release env sh.objects i sh.sys)) [
          | inl (r, e) ↦ rw (gone, e) (omega arith, refl)
          | inr (f, e) ↦ rw (gone, e) tt
        ]
        | inr here ↦ elim (Result-cases (share sh.objects i)) [
          | inl (os, e) ↦ rw (here, e) (omega arith, refl)
          | inr (f, e) ↦ rw (here, e) tt
        ]
      ]

  search_info-Advances :
      (sn : List ℕ) (b : Buff) (o : Option DeviceInfo) (sh : Shared env)
      → Advances 5 (get_image ∷ []) (search_info env sn b o sh)
  unfolding search_info finish
  search_info-Advances sn b none sh = (omega arith, refl)
  search_info-Advances sn b (some info) sh = (omega arith, refl)

  open_device-Advances :
      (sn : List ℕ) (b : Buff) (info : DeviceInfo) (sh : Shared env)
      → Within Any (Advances 4 (get_image ∷ [])) (open_device env sn b info sh)
  unfolding open_device finish
  open_device-Advances sn b info sh =
      elim (Result-cases (Device.start env (Device.init env) info sh.sys)) [
        | inr (f, e) ↦ rw e tt
        | inl (r, e) ↦ elim (Bool-cases (nonzero r.0)) [
          | inr fine ↦ rw (e, fine) (omega arith, refl)
          | inl failed ↦ elim (Result-cases (destroy_device env r.1 r.2)) [
            | inl (s', q) ↦ rw (e, failed, q) (omega arith, refl)
            | inr (f, q) ↦ rw (e, failed, q) tt
          ]
        ]
      ]

  add_device-Advances :
      (sn : List ℕ) (b : Buff) (i : ℕ) (sh : Shared env)
      → Within Any (Advances 3 (get_image ∷ [])) (add_device env sn b i sh)
  unfolding add_device
  add_device-Advances sn b i sh = elim (Result-cases (share sh.objects i)) [
    | inr (f, e) ↦ rw e tt
    | inl (os, e) ↦ elim (Result-cases (release_old env (lookup sn sh.cameras_list) os sh.sys)) [
      | inl (r, q) ↦ rw (e, q) (omega arith, refl)
      | inr (f, q) ↦ rw (e, q) tt
    ]
  ]

  shoot-Advances :
      (b : Buff) (i : ℕ) (o : Option Object) (sh : Shared env)
      → Within Any (Advances 2 (get_image ∷ [])) (shoot env b i o sh)
  unfolding shoot
  shoot-Advances b i none sh = tt
  shoot-Advances b i (some o) sh =
      elim (Result-cases (Picture.take_picture env o.device none b sh.sys)) [
        | inl (r, e) ↦ rw e (omega arith, refl)
        | inr (f, e) ↦ rw e tt
      ]

  pub go_on-Advances :
      (stage : Stage) (sh : Shared env)
      → stage ≢ idle
      → Within Any (Advances (stage_turns stage) (pending stage)) (go_on env stage sh)
  unfolding go_on finish
  go_on-Advances idle sh ne = absurd (ne refl)
  go_on-Advances (listing code) sh ne = (omega arith, refl)
  go_on-Advances (looking sn b) sh ne = look-Advances sn b (lookup sn sh.cameras_list) sh
  go_on-Advances (missing sn b) sh ne =
      search_info-Advances sn b (find_info env sh.camera_info_list (c_str sn)) sh
  go_on-Advances (opening sn b info) sh ne = open_device-Advances sn b info sh
  go_on-Advances (adding sn b i) sh ne = add_device-Advances sn b i sh
  go_on-Advances (holding sn b i) sh ne = shoot-Advances b i (at sh.objects i) sh
  go_on-Advances (dropping b i) sh ne = elim (Result-cases (release env sh.objects i sh.sys)) [
    | inl (r, e) ↦ rw e (omega arith, refl)
    | inr (f, e) ↦ rw e tt
  ]
