-- ===== src/Grpc/Locks/Calls.antt =====
-- The turns of a call of src/camera_grpc_server.cc in the methods of src/camera_service.cc, with
-- their mutexes.
use Prim.Native.Nat.{bit_or}
use grpc_cplugplug_example.Base.{
  ℕ, Option, none, some, List, [], ◌∷◌, set, Bool, true, false, if◌then◌else◌, Result, ok, ◌>>=◌,
}
use grpc_cplugplug_example.Base.Int.{ℤ, nonzero}
use grpc_cplugplug_example.Buffer.{Buff}
use grpc_cplugplug_example.Text.{to_upper}
use grpc_cplugplug_example.Sdk.{DeviceInfo, Env}
use grpc_cplugplug_example.Camera.Forward.{enum_devices}
use grpc_cplugplug_example.Device
use grpc_cplugplug_example.Device.{Device}
use grpc_cplugplug_example.Device.Picture
use grpc_cplugplug_example.Provider.{destroy_device}
use grpc_cplugplug_example.Provider.Map.{lookup, insert}
use grpc_cplugplug_example.Provider.Metas.{to_camera_meta_info_list}
use grpc_cplugplug_example.Provider.Shared.{make_shared, share}
use grpc_cplugplug_example.Grpc.{add_messages, content_of, image_buffer}
use grpc_cplugplug_example.Grpc.Serving.{Call, camera_metas, reset_all, image}
use grpc_cplugplug_example.Grpc.Threads.{
  Stage, idle, listing, looking, missing, opening, adding, holding, dropping, metas, picture,
  reset_done, Shared,
}
use grpc_cplugplug_example.Grpc.Locks.{
  camera_info_list_lock, cameras_list_lock, device_lock, new_device_lock, Code, leave, acquire,
  release, effect, object, drop_pointer, find_camera_device_by_sn, find_camera_info_by_sn,
}

module _ (env : Env) where
  unfoldable pub with_pointer : List ℕ → Buff → Option ℕ → Code env
  with_pointer sn b none = leave (missing sn b) []
  with_pointer sn b (some i) = leave (holding sn b i) []

  -- `find_or_create_camera_device` with its first look.
  unfoldable pub look_code : List ℕ → Buff → Code env
  unfolding find_camera_device_by_sn with_pointer
  look_code sn b = find_camera_device_by_sn env sn (with_pointer sn b)

  -- The end of `GetImage`.
  abbrev pub finish_code : Buff → Code env
  finish_code b = leave idle (picture (content_of b) ∷ [])

  unfoldable pub with_info : List ℕ → Buff → Option DeviceInfo → Code env
  with_info sn b none = finish_code b
  with_info sn b (some info) = leave (opening sn b info) []

  unfoldable pub search_code : List ℕ → Buff → Code env
  unfolding find_camera_info_by_sn with_info
  search_code sn b = find_camera_info_by_sn env sn (with_info sn b)

  unfoldable pub start_new : DeviceInfo → Shared env → Result ((ℤ × Device) × Shared env)
  start_new info sh = Device.start env (Device.init env) info sh.sys >>= λ r.
      ok ((r.0, r.1), record sh { sys = r.2 })

  unfoldable pub destroy_new : Device → Shared env → Result (Unit {0} × Shared env)
  destroy_new d sh = destroy_device env d sh.sys >>= λ s'. ok (tt, record sh { sys = s' })

  unfoldable pub keep_new : Device → Shared env → Result (ℕ × Shared env)
  keep_new d sh = let q = make_shared sh.objects d in ok (q.0, record sh { objects = q.1 })

  -- What follows on `start` of the new device. One that failed to start ends with its pointer.
  unfoldable pub opened_code : ℕ → List ℕ → Buff → Bool → Device → Code env
  opened_code k sn b true d =
      acquire (new_device_lock k)
        (effect Unit (destroy_new d) (λ u. release (new_device_lock k) (finish_code b)))
  opened_code k sn b false d = effect ℕ (keep_new d) (λ i. leave (adding sn b i) [])

  unfoldable pub open_code : ℕ → List ℕ → Buff → DeviceInfo → Code env
  unfolding opened_code
  open_code k sn b info = acquire (new_device_lock k) (
      effect (ℤ × Device) (start_new info)
        (λ r. release (new_device_lock k) (opened_code k sn b (nonzero r.0) r.1)))

  -- `cameras_list_[sn] = a`, with what the map had under the key.
  unfoldable pub insert_key : List ℕ → ℕ → Shared env → Result (Option ℕ × Shared env)
  insert_key sn i sh = share sh.objects i >>= λ os. ok (
    lookup sn sh.cameras_list,
    record sh { cameras_list = insert sn i sh.cameras_list; objects = os },
  )

  -- The pointer that is replaced ends under the lock.
  unfoldable pub replace_code : Option ℕ → Code env → Code env
  unfolding drop_pointer
  replace_code none k = k
  replace_code (some j) k = drop_pointer env j k

  -- `add_camera_device`
  unfoldable pub add_code : List ℕ → Buff → ℕ → Code env
  unfolding replace_code
  add_code sn b i = acquire cameras_list_lock (
      effect (Option ℕ) (insert_key sn i)
        (λ old. replace_code old (release cameras_list_lock (leave (holding sn b i) []))))

  unfoldable pub shoot_object : Buff → ℕ → Shared env → Result (Buff × Shared env)
  unfolding object
  shoot_object b i sh = object env i sh >>= λ o.
      Picture.take_picture env o.device none b sh.sys >>= λ r.
      ok (
        r.2,
        record sh { objects = set sh.objects i (some (record o { device = r.1 })); sys = r.3 },
      )

  -- `take_picture` of the device.
  unfoldable pub shoot_code : Buff → ℕ → Code env
  shoot_code b i =
      acquire (device_lock i)
        (effect Buff (shoot_object b i) (λ b'. release (device_lock i) (leave (dropping b' i) [])))

  unfoldable pub read_list : Shared env → Result (List (Option DeviceInfo) × Shared env)
  read_list sh = ok (sh.camera_info_list, sh)

  -- `to_camera_meta_info_list` reads the list without its lock.
  unfoldable pub list_code : ℤ → Code env
  list_code code = effect (List (Option DeviceInfo)) read_list λ l.
      let infos = if nonzero code then [] else to_camera_meta_info_list env l [] in
      leave idle (metas (add_messages [] infos) ∷ [])

  -- A turn in a call, for the thread `k`.
  unfoldable pub stage_code : ℕ → Stage → Code env
  unfolding look_code search_code open_code add_code shoot_code list_code drop_pointer
  stage_code k idle = leave idle []
  stage_code k (listing code) = list_code code
  stage_code k (looking sn b) = look_code sn b
  stage_code k (missing sn b) = search_code sn b
  stage_code k (opening sn b info) = open_code k sn b info
  stage_code k (adding sn b i) = add_code sn b i
  stage_code k (holding sn b i) = shoot_code b i
  stage_code k (dropping b i) = drop_pointer env i (finish_code b)

  unfoldable pub enumerate : Shared env → Result (ℤ × Shared env)
  enumerate sh =
      let r = enum_devices env (bit_or env.mv_gige_device env.mv_usb_device) sh.sys in
      ok (r.0, record sh { camera_info_list = r.1; sys = r.2 })

  unfoldable pub new_buffer : Shared env → Result (Buff × Shared env)
  new_buffer sh = image_buffer env sh.sys >>= λ b. ok (b, sh)

  -- The begin of a call, with `enum_all_cameras_info`.
  unfoldable pub call_code : Call → Code env
  unfolding enumerate new_buffer
  call_code camera_metas =
      acquire camera_info_list_lock
        (effect ℤ enumerate (λ code. release camera_info_list_lock (leave (listing code) [])))
  call_code reset_all = leave idle (reset_done ∷ [])
  call_code (image q) = effect Buff new_buffer (λ b. leave (looking (to_upper q.sn) b) [])

  unfoldable pub next_call_code : List Call → List Call × Code env
  unfolding call_code
  next_call_code [] = ([], leave idle [])
  next_call_code (c ∷ cs) = (cs, call_code c)

  -- What a thread does after a turn that led to the stage.
  unfoldable pub next_code : ℕ → List Call → Stage → List Call × Code env
  unfolding stage_code next_call_code
  next_code k cs idle = next_call_code cs
  next_code k cs stage = (cs, stage_code k stage)
