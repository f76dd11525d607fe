-- ===== src/Grpc/Threads.antt =====
-- The threads of the gRPC server, which answer calls at the same time. A turn of a thread is what it
-- does under one lock of src/camera_service.cc: `lock_cameras_list_` in `find_camera_device_by_sn`
-- and `add_camera_device`, `lock_camera_info_list_` in `find_camera_info_by_sn` and
-- `enum_all_cameras_info`, the lock of the device in `start` and `take_picture`. What it does
-- between two locks is its own, and goes with the turn before it.
pub mod Owners
pub mod Turns
pub mod Acts
pub mod Schedules
pub mod Lone
pub mod Advances
pub mod Progress
pub mod Race
pub mod Stale
pub mod Stages
pub mod Keyed
pub mod Keys
pub mod Single
pub mod Sequence
mod Tests
use Prim.Native.Nat.{bit_or}
use grpc_cplugplug_example.Base.{
  ℕ, Option, none, some, List, [], ◌∷◌, ◌++◌, map, get_elem?, set, if◌then◌else◌, Result, ok, fault,
  bad_access, ◌>>=◌,
}
use grpc_cplugplug_example.Base.Int.{ℤ, pos, negsuc, nonzero}
use grpc_cplugplug_example.Buffer.{Buff}
use grpc_cplugplug_example.Text.{c_str, to_upper}
use grpc_cplugplug_example.Sdk.{DeviceInfo, Env, Sys}
use grpc_cplugplug_example.Camera.Forward.{enum_devices}
use grpc_cplugplug_example.Device
use grpc_cplugplug_example.Device.Picture
use grpc_cplugplug_example.Provider.{destroy_device, find_info}
use grpc_cplugplug_example.Provider.Map.{lookup, insert, erase}
use grpc_cplugplug_example.Provider.Metas.{to_camera_meta_info_list}
use grpc_cplugplug_example.Provider.Shared.{Object, Objects, at, make_shared, share, release}
use grpc_cplugplug_example.Grpc.{
  Status, CameraMeta, status_ok, add_messages, content_of, image_buffer,
}
use grpc_cplugplug_example.Grpc.Serving.{Call, camera_metas, reset_all, image}

-- What a call is answered by.
pub data Answer : Type 0 where
  metas : List CameraMeta → Answer
  picture : Status × List ℕ → Answer
  reset_done : Answer

-- Where a thread stands: between two calls; behind `enum_all_cameras_info`, with its result; and
-- in `take_picture` of the provider, with the buffer of the call: before the look into the map,
-- before the search for the device, before its start, before it is added to the map, before its
-- picture is taken, and before the pointer ends. From the third of these on it has a pointer.
pub data Stage : Type 0 where
  idle : Stage
  listing : ℤ → Stage
  looking missing : List ℕ → Buff → Stage
  opening : List ℕ → Buff → DeviceInfo → Stage
  adding holding : List ℕ → Buff → ℕ → Stage
  dropping : Buff → ℕ → Stage

pub record Thread : Type 0 where
  pub calls : List Call
  pub stage : Stage
  pub answers : List Answer

module _ (env : Env) where
  -- The members of the provider, the objects that they and the threads point to, and the system.
  pub record Shared : Type 0 where
    pub camera_info_list : List (Option DeviceInfo)
    pub cameras_list : List (List ℕ × ℕ)
    pub objects : Objects
    pub sys : Sys env.World

  -- What a turn leaves: the new stage, the shared state, and the answers that were given in it.
  abbrev pub Turned : Type 0
  Turned = Stage × Shared × List Answer

  -- The end of `GetImage`, for a result of `take_picture` that it does not look at.
  unfoldable pub finish : Buff → Shared → Turned
  finish b sh = (idle, sh, picture (content_of b) ∷ [])

  -- The begin of a call.
  unfoldable pub begin : Call → Shared → Result Turned
  begin camera_metas sh =
      let r = enum_devices env (bit_or env.mv_gige_device env.mv_usb_device) sh.sys in
      ok (listing r.0, record sh { camera_info_list = r.1; sys = r.2 }, [])
  begin reset_all sh = ok (idle, sh, reset_done ∷ [])
  begin (image q) sh = image_buffer env sh.sys >>= λ b. ok (looking (to_upper q.sn) b, sh, [])

  -- `find_camera_device_by_sn`, for what the map has under the key.
  unfoldable pub look_object : List ℕ → Buff → ℕ → Option Object → Shared → Result Turned
  look_object sn b i none sh = fault bad_access
  look_object sn b i (some o) sh =
      if Device.is_shutdown o.device
      then (release env sh.objects i sh.sys >>= λ r. ok (
        missing sn b,
        record sh { cameras_list = erase sn sh.cameras_list; objects = r.0; sys = r.1 },
        [],
      ))
      else (share sh.objects i >>= λ os. ok (holding sn b i, record sh { objects = os }, []))

  unfoldable pub look : List ℕ → Buff → Option ℕ → Shared → Result Turned
  unfolding look_object
  look sn b none sh = ok (missing sn b, sh, [])
  look sn b (some i) sh = look_object sn b i (at sh.objects i) sh

  unfoldable pub search_info : List ℕ → Buff → Option DeviceInfo → Shared → Turned
  unfolding finish
  search_info sn b none sh = finish b sh
  search_info sn b (some info) sh = (opening sn b info, sh, [])

  -- `make_shared<CameraDevice>` and `start`. Nobody else can point to the device yet.
  unfoldable pub open_device : List ℕ → Buff → DeviceInfo → Shared → Result Turned
  unfolding finish
  open_device sn b info sh = Device.start env (Device.init env) info sh.sys >>= λ r.
      if nonzero r.0
      then (destroy_device env r.1 r.2 >>= λ s'. ok (finish b (record sh { sys = s' })))
      else (let q = make_shared sh.objects r.1 in
          ok (adding sn b q.0, record sh { objects = q.1; sys = r.2 }, []))

  -- What the map had under the key loses an owner.
  unfoldable pub release_old : Option ℕ → Objects → Sys env.World → Result (Objects × Sys env.World)
  release_old none os s = ok (os, s)
  release_old (some j) os s = release env os j s

  -- `add_camera_device`
  unfoldable pub add_device : List ℕ → Buff → ℕ → Shared → Result Turned
  unfolding release_old
  add_device sn b i sh = share sh.objects i >>= λ os.
      release_old (lookup sn sh.cameras_list) os sh.sys >>= λ r. ok (
        holding sn b i,
        record sh { cameras_list = insert sn i sh.cameras_list; objects = r.0; sys = r.1 },
        [],
      )

  unfoldable pub shoot : Buff → ℕ → Option Object → Shared → Result Turned
  shoot b i none sh = fault bad_access
  shoot b i (some o) sh = Picture.take_picture env o.device none b sh.sys >>= λ r. ok (
    dropping r.2 i,
    record sh { objects = set sh.objects i (some (record o { device = r.1 })); sys = r.3 },
    [],
  )

  -- A turn in a call. An idle thread has none.
  unfoldable pub go_on : Stage → Shared → Result Turned
  unfolding look search_info open_device add_device shoot finish
  go_on idle sh = ok (idle, sh, [])
  go_on (listing code) sh =
      let infos =
        if nonzero code then [] else to_camera_meta_info_list env sh.camera_info_list [] in
      ok (idle, sh, metas (add_messages [] infos) ∷ [])
  go_on (looking sn b) sh = look sn b (lookup sn sh.cameras_list) sh
  go_on (missing sn b) sh = ok (search_info sn b (find_info env sh.camera_info_list (c_str sn)) sh)
  go_on (opening sn b info) sh = open_device sn b info sh
  go_on (adding sn b i) sh = add_device sn b i sh
  go_on (holding sn b i) sh = shoot b i (at sh.objects i) sh
  go_on (dropping b i) sh = release env sh.objects i sh.sys >>= λ r.
      ok (finish b (record sh { objects = r.0; sys = r.1 }))

  -- The next call of an idle thread, if it has one.
  unfoldable pub next_call : List Call → Shared → Result (List Call × Turned)
  unfolding begin
  next_call [] sh = ok ([], (idle, sh, []))
  next_call (c ∷ cs) sh = begin c sh >>= λ r. ok (cs, r)

  -- A turn of a thread, with the calls that it has left.
  unfoldable pub act : List Call → Stage → Shared → Result (List Call × Turned)
  unfolding next_call go_on
  act cs idle sh = next_call cs sh
  act cs stage sh = go_on stage sh >>= λ r. ok (cs, r)

  pub record Server : Type 0 where
    pub shared : Shared
    pub threads : List Thread

  -- The thread whose turn it is, by its place; there may be none there.
  unfoldable pub turn_of : ℕ → Option Thread → Server → Result Server
  unfolding act
  turn_of k none st = ok st
  turn_of k (some t) st = act t.calls t.stage st.shared >>= λ r. ok (record {
    shared = r.1.1;
    threads =
        set st.threads k (record { calls = r.0; stage = r.1.0; answers = t.answers ++ r.1.2 });
  })

  unfoldable pub turn : ℕ → Server → Result Server
  unfolding turn_of
  turn k st = turn_of k (get_elem? st.threads k) st

  -- The turns, in the order in which they are taken.
  unfoldable pub run : List ℕ → Server → Result Server
  run [] st = ok st
  run (k ∷ ks) st = turn k st >>= λ st'. run ks st'

-- A thread before its first call.
abbrev pub ready_thread : List Call → Thread
ready_thread cs = record { calls = cs; stage = idle; answers = [] }

-- A server with no camera open, whose threads have these calls to answer.
unfoldable pub fresh :
    (env : Env) → List (List Call) → List (Option DeviceInfo) → Sys env.World → Server env
fresh env calls infos s = record {
  shared = record { camera_info_list = infos; cameras_list = []; objects = []; sys = s };
  threads = map ready_thread calls;
}
