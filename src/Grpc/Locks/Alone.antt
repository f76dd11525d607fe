-- ===== src/Grpc/Locks/Alone.antt =====
-- The codes of src/camera_service.cc with their mutexes, against the turns of the threads: what a code does when no other
-- thread takes a step in it.
use grpc_cplugplug_example.Base.{
  ℕ, zero, suc, ◌-◌, ◌≡◌, Bool, true, false, if◌then◌else◌, refl, ap, inl, inr, none, some, List,
  [], ◌∷◌, set, ◌==◌, ok, ◌>>=◌, Result-cases, Bool-cases, Option-cases,
}
use grpc_cplugplug_example.Base.Int.{nonzero}
use grpc_cplugplug_example.Buffer.{Buff}
use grpc_cplugplug_example.Text.{c_str}
use grpc_cplugplug_example.Sdk.{DeviceInfo, Env}
use grpc_cplugplug_example.Device
use grpc_cplugplug_example.Device.Picture
use grpc_cplugplug_example.Device.{Device}
use grpc_cplugplug_example.Provider.{destroy_device, find_info}
use grpc_cplugplug_example.Provider.Map.{lookup}
use grpc_cplugplug_example.Provider.Shared.{Object, at, make_shared, share, release, release_found}
use grpc_cplugplug_example.Provider.Shared.Heap.{at-set_self}
use grpc_cplugplug_example.Grpc.{image_buffer}
use grpc_cplugplug_example.Grpc.Serving.{Call, camera_metas, reset_all, image}
use grpc_cplugplug_example.Grpc.Threads.{
  Stage, idle, listing, looking, missing, opening, adding, holding, dropping, Shared, finish, begin,
  look_object, look, search_info, open_device, release_old, add_device, shoot, go_on, next_call,
  act,
}
use grpc_cplugplug_example.Grpc.Locks.{
  Code, exec, object, read_shutdown, is_shutdown, drop_owner, destroy, drop_pointer, find_key,
  erase_key, share_pointer, found_device, find_camera_device_by_sn, read_info,
  find_camera_info_by_sn, destroy_last, found_key, found_entry,
}
use grpc_cplugplug_example.Grpc.Locks.Calls.{
  look_code, finish_code, search_code, start_new, destroy_new, keep_new, with_pointer, with_info,
  replace_code, opened_code, open_code, insert_key, add_code, shoot_object, shoot_code, read_list,
  list_code, stage_code, enumerate, new_buffer, call_code, next_call_code, next_code,
}

set_twice : {A : Type 0} (xs : List A) (i : ℕ) (x y : A) → set (set xs i x) i y ≡ set xs i y
set_twice [] i x y = refl
set_twice (z ∷ xs) zero x y = refl
set_twice (z ∷ xs) (suc i) x y = ap (λ l. z ∷ l) (set_twice xs i x y)

module _ (env : Env) where
  exec-drop_pointer :
      (i : ℕ) (c : Code env) (sh : Shared env)
      → exec env (drop_pointer env i c) sh ≡ (
          release env sh.objects i sh.sys >>= λ r.
          exec env c (record sh { objects = r.0; sys = r.1 }))
  unfolding exec drop_pointer destroy_last drop_owner destroy object release release_found
  exec-drop_pointer i c sh = elim (Option-cases (at sh.objects i)) [
    | inl e ↦ rw e refl
    | inr (o, e) ↦
        let x : Object = record o { owners = o.owners - 1 } in
        elim (Bool-cases (o.owners == 1)) [
          | inr more ↦ rw (e, more) refl
          | inl last ↦ elim (Result-cases (destroy_device env o.device sh.sys)) [
            | inl (s', q) ↦
                rw
                  (
                    e,
                    last,
                    at-set_self sh.objects i o (some x) e,
                    q,
                    set_twice sh.objects i (some x) none,
                  )
                  refl
            | inr (f, q) ↦ rw (e, last, at-set_self sh.objects i o (some x) e, q) refl
          ]
        ]
  ]

  exec-look_code :
      (sn : List ℕ) (b : Buff) (sh : Shared env)
      → exec env (look_code env sn b) sh ≡ look env sn b (lookup sn sh.cameras_list) sh
  unfolding exec look_code find_camera_device_by_sn with_pointer found_key found_device found_entry
      is_shutdown find_key erase_key read_shutdown share_pointer object look look_object
  exec-look_code sn b sh = elim (Option-cases (lookup sn sh.cameras_list)) [
    | inl e ↦ rw e refl
    | inr (i, e) ↦ rw e (elim (Option-cases (at sh.objects i)) [
      | inl q ↦ rw q refl
      | inr (o, q) ↦ elim (Bool-cases (Device.is_shutdown o.device)) [
        | inl gone ↦ rw (q, gone) (exec-drop_pointer i _ _)
        | inr here ↦ elim (Result-cases (share sh.objects i)) [
          | inl (os, r) ↦ rw (q, here, r) refl
          | inr (f, r) ↦ rw (q, here, r) refl
        ]
      ]
    ])
  ]

  exec-search_code :
      (sn : List ℕ) (b : Buff) (sh : Shared env)
      → exec env (search_code env sn b) sh
        ≡ ok (search_info env sn b (find_info env sh.camera_info_list (c_str sn)) sh)
  unfolding exec search_code with_info find_camera_info_by_sn read_info search_info finish
  exec-search_code sn b sh = elim (Option-cases (find_info env sh.camera_info_list (c_str sn))) [
    | inl e ↦ rw e refl
    | inr (info, e) ↦ rw e refl
  ]

  exec-opened_code :
      (k : ℕ) (sn : List ℕ) (b : Buff) (failed : Bool) (d : Device) (sh : Shared env)
      → exec env (opened_code env k sn b failed d) sh ≡ (
          if failed
          then (destroy_device env d sh.sys >>= λ s'. ok (finish env b (record sh { sys = s' })))
          else (let q = make_shared sh.objects d in
              ok (adding sn b q.0, record sh { objects = q.1 }, [])))
  unfolding exec opened_code destroy_new keep_new finish
  exec-opened_code k sn b false d sh = refl
  exec-opened_code k sn b true d sh = elim (Result-cases (destroy_device env d sh.sys)) [
    | inl (s', e) ↦ rw e refl
    | inr (f, e) ↦ rw e refl
  ]

  exec-open_code :
      (k : ℕ) (sn : List ℕ) (b : Buff) (info : DeviceInfo) (sh : Shared env)
      → exec env (open_code env k sn b info) sh ≡ open_device env sn b info sh
  unfolding exec open_code start_new open_device
  exec-open_code k sn b info sh =
      elim (Result-cases (Device.start env (Device.init env) info sh.sys)) [
        | inr (f, e) ↦ rw e refl
        | inl (r, e) ↦ rw e (exec-opened_code k sn b (nonzero r.0) r.1 (record sh { sys = r.2 }))
      ]

  exec-add_code :
      (sn : List ℕ) (b : Buff) (i : ℕ) (sh : Shared env)
      → exec env (add_code env sn b i) sh ≡ add_device env sn b i sh
  unfolding exec add_code replace_code insert_key add_device release_old
  exec-add_code sn b i sh = elim (Result-cases (share sh.objects i)) [
    | inr (f, e) ↦ rw e refl
    | inl (os, e) ↦ elim (Option-cases (lookup sn sh.cameras_list)) [
      | inl q ↦ rw (e, q) refl
      | inr (j, q) ↦ rw (e, q) (exec-drop_pointer j _ _)
    ]
  ]

  exec-shoot_code :
      (b : Buff) (i : ℕ) (sh : Shared env)
      → exec env (shoot_code env b i) sh ≡ shoot env b i (at sh.objects i) sh
  unfolding exec shoot_code shoot_object object shoot
  exec-shoot_code b i sh = elim (Option-cases (at sh.objects i)) [
    | inl e ↦ rw e refl
    | inr (o, e) ↦ elim (Result-cases (Picture.take_picture env o.device none b sh.sys)) [
      | inl (r, q) ↦ rw (e, q) refl
      | inr (f, q) ↦ rw (e, q) refl
    ]
  ]

  exec-stage_code :
      (k : ℕ) (stage : Stage) (sh : Shared env)
      → exec env (stage_code env k stage) sh ≡ go_on env stage sh
  unfolding stage_code go_on exec list_code read_list finish
  exec-stage_code k idle sh = refl
  exec-stage_code k (listing code) sh = refl
  exec-stage_code k (looking sn b) sh = exec-look_code sn b sh
  exec-stage_code k (missing sn b) sh = exec-search_code sn b sh
  exec-stage_code k (opening sn b info) sh = exec-open_code k sn b info sh
  exec-stage_code k (adding sn b i) sh = exec-add_code sn b i sh
  exec-stage_code k (holding sn b i) sh = exec-shoot_code b i sh
  exec-stage_code k (dropping b i) sh = exec-drop_pointer i (finish_code env b) sh

  exec-call_code : (c : Call) (sh : Shared env) → exec env (call_code env c) sh ≡ begin env c sh
  unfolding call_code begin exec enumerate new_buffer
  exec-call_code camera_metas sh = refl
  exec-call_code reset_all sh = refl
  exec-call_code (image q) sh = elim (Result-cases (image_buffer env sh.sys)) [
    | inl (b, e) ↦ rw e refl
    | inr (f, e) ↦ rw e refl
  ]

  -- The turns with their mutexes passed over.
  pub exec-act :
      (k : ℕ) (cs : List Call) (stage : Stage) (sh : Shared env)
      → (let n = next_code env k cs stage in exec env n.1 sh >>= λ r. ok (n.0, r))
        ≡ act env cs stage sh
  unfolding next_code next_call_code act next_call exec
  exec-act k [] idle sh = refl
  exec-act k (c ∷ cs) idle sh = rw (exec-call_code c sh) refl
  exec-act k cs (listing code) sh = rw (exec-stage_code k (listing code) sh) refl
  exec-act k cs (looking sn b) sh = rw (exec-stage_code k (looking sn b) sh) refl
  exec-act k cs (missing sn b) sh = rw (exec-stage_code k (missing sn b) sh) refl
  exec-act k cs (opening sn b i) sh = rw (exec-stage_code k (opening sn b i) sh) refl
  exec-act k cs (adding sn b i) sh = rw (exec-stage_code k (adding sn b i) sh) refl
  exec-act k cs (holding sn b i) sh = rw (exec-stage_code k (holding sn b i) sh) refl
  exec-act k cs (dropping b i) sh = rw (exec-stage_code k (dropping b i) sh) refl
