-- ===== src/Grpc/Locks/Guards.antt =====
-- The methods of src/camera_service.cc write what a mutex guards only while their thread holds it.

use grpc_cplugplug_example.Base.{
  ℕ, ◌≡◌, refl, inl, inr, Option, none, some, List, [], ◌∷◌, Bool, true, false, ◌==◌, ==_iff,
  Within, Result-cases, Option-cases,
}
use grpc_cplugplug_example.Base.Int.{nonzero}
use grpc_cplugplug_example.Buffer.{Buff}
use grpc_cplugplug_example.Sdk.{DeviceInfo, Env}
use grpc_cplugplug_example.Device.{Device}
use grpc_cplugplug_example.Provider.Shared.{at}
use grpc_cplugplug_example.Grpc.{image_buffer}
use grpc_cplugplug_example.Grpc.Serving.{Call, camera_metas, reset_all, image}
use grpc_cplugplug_example.Grpc.Threads.{
  Stage, idle, listing, looking, missing, opening, adding, holding, dropping, Shared,
}
use grpc_cplugplug_example.Grpc.Threads.Advances.{Any}
use grpc_cplugplug_example.Grpc.Locks.{
  Mutex, camera_info_list_lock, cameras_list_lock, device_lock, new_device_lock, Code, leave,
  acquire, release, effect, object, read_shutdown, is_shutdown, destroy_last, drop_pointer,
  find_key, erase_key, share_pointer, found_entry, found_device, found_key,
  find_camera_device_by_sn, read_info, find_camera_info_by_sn,
}
use grpc_cplugplug_example.Grpc.Locks.Calls.{
  with_pointer, look_code, finish_code, with_info, search_code, opened_code, open_code,
  replace_code, add_code, shoot_code, read_list, list_code, stage_code, new_buffer, call_code,
  next_call_code, next_code,
}
use grpc_cplugplug_example.Grpc.Locks.Mutexes.{unlock}
use grpc_cplugplug_example.Grpc.Locks.Writes.{
  Keeps, Same-refl, drop_owner-Keeps, share_pointer-Keeps, erase_key-Keeps, enumerate-Keeps,
  start_new-Keeps, destroy_new-Keeps, destroy-Keeps, shoot_object-Keeps, keep_new-Keeps,
  insert_key-Keeps,
}

module _ (env : Env) where
  -- A code all of whose effects are guarded, for a thread that holds `hs`.
  abbrev pub Guarded : List Mutex → Code env → Type 0
  Guarded hs (leave stage answers) = hs ≡ []
  Guarded hs (acquire m c) = Guarded (m ∷ hs) c
  Guarded hs (release m c) = Guarded (unlock m hs) c
  Guarded hs (effect A f c) =
      ((sh : Shared env) → Within Any (λ r. Keeps env hs sh r.1) (f sh))
      × ((a : A) → Guarded hs (c a))

  Keeps-refl : (hs : List Mutex) (sh : Shared env) → Keeps env hs sh sh
  Keeps-refl hs sh m h = Same-refl env sh m

  drop_pointer-Guarded :
      (hs : List Mutex) (i : ℕ) (c : Code env) → Guarded hs c → Guarded hs (drop_pointer env i c)
  unfolding drop_pointer destroy_last
  drop_pointer-Guarded hs i c g = (drop_owner-Keeps env hs i, λ last. after last)
    where
      same : i == i ≡ true
      same = (==_iff i i).1 refl

      after : (last : Bool) → Guarded hs (destroy_last env i c last)
      after true =
          (λ sh. destroy-Keeps env (device_lock i ∷ hs) i sh (rw same refl), λ u. rw same g)
      after false = g

  found_entry-Guarded :
      (sn : List ℕ) (b : Buff) (i : ℕ) (gone : Bool)
      → Guarded (cameras_list_lock ∷ []) (found_entry env sn (with_pointer env sn b) i gone)
  unfolding found_entry with_pointer erase_key share_pointer
  found_entry-Guarded sn b i true =
      (erase_key-Keeps env sn, λ u. drop_pointer-Guarded (cameras_list_lock ∷ []) i _ refl)
  found_entry-Guarded sn b i false = (share_pointer-Keeps env (cameras_list_lock ∷ []) i, λ u. refl)

  found_key-Guarded :
      (sn : List ℕ) (b : Buff) (o : Option ℕ)
      → Guarded (cameras_list_lock ∷ []) (found_key env sn (with_pointer env sn b) o)
  unfolding found_key found_device is_shutdown read_shutdown object with_pointer
  found_key-Guarded sn b none = refl
  found_key-Guarded sn b (some i) = (
    λ sh. elim (Option-cases (at sh.objects i)) [
      | inl e ↦ rw e tt
      | inr (o, e) ↦ rw e (Keeps-refl (device_lock i ∷ cameras_list_lock ∷ []) sh)
    ],
    λ gone. rw ((==_iff i i).1 refl) (found_entry-Guarded sn b i gone),
  )

  with_info-Guarded :
      (sn : List ℕ) (b : Buff) (o : Option DeviceInfo) → Guarded [] (with_info env sn b o)
  unfolding with_info
  with_info-Guarded sn b none = refl
  with_info-Guarded sn b (some info) = refl

  opened_code-Guarded :
      (k : ℕ) (sn : List ℕ) (b : Buff) (failed : Bool) (d : Device)
      → Guarded [] (opened_code env k sn b failed d)
  unfolding opened_code
  opened_code-Guarded k sn b true d =
      (destroy_new-Keeps env (new_device_lock k ∷ []) d, λ u. rw ((==_iff k k).1 refl) refl)
  opened_code-Guarded k sn b false d = (keep_new-Keeps env [] d, λ i. refl)

  replace_code-Guarded :
      (old : Option ℕ) (c : Code env)
      → Guarded (cameras_list_lock ∷ []) c
      → Guarded (cameras_list_lock ∷ []) (replace_code env old c)
  unfolding replace_code
  replace_code-Guarded none c g = g
  replace_code-Guarded (some j) c g = drop_pointer-Guarded (cameras_list_lock ∷ []) j c g

  stage_code-Guarded : (k : ℕ) (stage : Stage) → Guarded [] (stage_code env k stage)
  unfolding stage_code list_code read_list look_code find_camera_device_by_sn find_key search_code
      find_camera_info_by_sn read_info open_code add_code shoot_code
  stage_code-Guarded k idle = refl
  stage_code-Guarded k (listing code) = (λ sh. Keeps-refl [] sh, λ l. refl)
  stage_code-Guarded k (looking sn b) =
      (λ sh. Keeps-refl (cameras_list_lock ∷ []) sh, found_key-Guarded sn b)
  stage_code-Guarded k (missing sn b) =
      (λ sh. Keeps-refl (camera_info_list_lock ∷ []) sh, with_info-Guarded sn b)
  stage_code-Guarded k (opening sn b info) = (
    start_new-Keeps env (new_device_lock k ∷ []) info,
    λ r. rw ((==_iff k k).1 refl) (opened_code-Guarded k sn b (nonzero r.0) r.1),
  )
  stage_code-Guarded k (adding sn b i) =
      (insert_key-Keeps env sn i, λ old. replace_code-Guarded old _ refl)
  stage_code-Guarded k (holding sn b i) = (
    λ sh. shoot_object-Keeps env (device_lock i ∷ []) b i sh (rw ((==_iff i i).1 refl) refl),
    λ b'. rw ((==_iff i i).1 refl) refl,
  )
  stage_code-Guarded k (dropping b i) = drop_pointer-Guarded [] i (finish_code env b) refl

  call_code-Guarded : (c : Call) → Guarded [] (call_code env c)
  unfolding call_code new_buffer
  call_code-Guarded camera_metas = (enumerate-Keeps env, λ code. refl)
  call_code-Guarded reset_all = refl
  call_code-Guarded (image q) = (
    λ sh. elim (Result-cases (image_buffer env sh.sys)) [
      | inl (b, e) ↦ rw e (Keeps-refl [] sh)
      | inr (f, e) ↦ rw e tt
    ],
    λ b. refl,
  )

  pub next_code-Guarded :
      (k : ℕ) (cs : List Call) (stage : Stage) → Guarded [] (next_code env k cs stage).1
  unfolding next_code next_call_code
  next_code-Guarded k [] idle = refl
  next_code-Guarded k (c ∷ cs) idle = call_code-Guarded c
  next_code-Guarded k cs (listing code) = stage_code-Guarded k (listing code)
  next_code-Guarded k cs (looking sn b) = stage_code-Guarded k (looking sn b)
  next_code-Guarded k cs (missing sn b) = stage_code-Guarded k (missing sn b)
  next_code-Guarded k cs (opening sn b i) = stage_code-Guarded k (opening sn b i)
  next_code-Guarded k cs (adding sn b i) = stage_code-Guarded k (adding sn b i)
  next_code-Guarded k cs (holding sn b i) = stage_code-Guarded k (holding sn b i)
  next_code-Guarded k cs (dropping b i) = stage_code-Guarded k (dropping b i)
