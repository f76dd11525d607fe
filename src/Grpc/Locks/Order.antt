-- ===== src/Grpc/Locks/Order.antt =====
-- The order in which the methods of src/camera_service.cc take their mutexes, and how many steps they take.
use grpc_cplugplug_example.Base.{
  ℕ, zero, suc, ◌-◌, ◌≤◌, ◌<◌, ◌≡◌, ◌≢◌, refl, arith, Option, none, some, List, [], ◌∷◌, ◌++◌, map,
  Bool, true, false,
}
use grpc_cplugplug_example.Base.Int.{nonzero}
use grpc_cplugplug_example.Buffer.{Buff}
use grpc_cplugplug_example.Sdk.{DeviceInfo, Env}
use grpc_cplugplug_example.Device.{Device}
use grpc_cplugplug_example.Grpc.Serving.{Call, camera_metas, reset_all, image}
use grpc_cplugplug_example.Grpc.Threads.{
  Stage, idle, listing, looking, missing, opening, adding, holding, dropping, Answer,
}
use grpc_cplugplug_example.Grpc.Threads.Advances.{Rpc, get_image, asked, answered, pending}
use grpc_cplugplug_example.Grpc.Locks.{
  Mutex, camera_info_list_lock, cameras_list_lock, device_lock, new_device_lock, Code, leave,
  acquire, release, effect, is_shutdown, drop_pointer, found_device, find_camera_device_by_sn,
  destroy_last, found_key, found_entry, find_camera_info_by_sn,
}
use grpc_cplugplug_example.Grpc.Locks.Calls.{
  with_pointer, with_info, replace_code, look_code, finish_code, search_code, opened_code,
  open_code, add_code, shoot_code, list_code, stage_code, call_code,
}

-- The mutex of a device is taken after those of the provider.
abbrev pub rank : Mutex → ℕ
rank camera_info_list_lock = 0
rank cameras_list_lock = 0
rank (device_lock i) = 1
rank (new_device_lock k) = 1

abbrev pub Above : Mutex → List Mutex → Type 0
Above m [] = Unit
Above m (h ∷ hs) = (rank h < rank m) × Above m hs

-- The steps that a thread takes at most from the end of the turn that led to the stage on, until
-- its call is answered.
abbrev pub leave_steps : Stage → List Answer → ℕ
leave_steps idle [] = 0
leave_steps idle (a ∷ as') = 1
leave_steps (listing code) as' = 3
leave_steps (looking sn b) as' = 39
leave_steps (missing sn b) as' = 27
leave_steps (opening sn b info) as' = 23
leave_steps (adding sn b i) as' = 18
leave_steps (holding sn b i) as' = 10
leave_steps (dropping b i) as' = 6

module _ (env : Env) where
  -- A code whose thread holds the mutexes `hs`, the last one taken first: it takes each mutex above
  -- all that it holds, gives back the last one taken first, holds none at its end, is through
  -- with the call after `n` steps at most, and answers what was asked.
  abbrev pub Orderly : List Mutex → List Rpc → ℕ → Code env → Type 0
  Orderly hs asks n (leave stage answers) =
      (hs ≡ []) × (leave_steps stage answers ≤ n) × (map answered answers ++ pending stage ≡ asks)
  Orderly hs asks zero (acquire m c) = ⊥
  Orderly hs asks (suc n) (acquire m c) = Above m hs × Orderly (m ∷ hs) asks n c
  Orderly hs asks zero (release m c) = ⊥
  Orderly [] asks (suc n) (release m c) = ⊥
  Orderly (h ∷ hs) asks (suc n) (release m c) = (h ≡ m) × Orderly hs asks n c
  Orderly hs asks zero (effect A f c) = ⊥
  Orderly hs asks (suc n) (effect A f c) = (a : A) → Orderly hs asks n (c a)

  Orderly-le :
      (hs : List Mutex) (asks : List Rpc) (n n' : ℕ) (c : Code env)
      → n ≤ n'
      → Orderly hs asks n c
      → Orderly hs asks n' c
  Orderly-le hs asks n n' (leave stage answers) le o = (o.0, omega (arith, o.1, le), o.2)
  Orderly-le hs asks zero n' (acquire m c) le o = absurd o
  Orderly-le hs asks (suc n) zero (acquire m c) le o = absurd (omega (arith, le))
  Orderly-le hs asks (suc n) (suc n') (acquire m c) le o =
      (o.0, Orderly-le (m ∷ hs) asks n n' c (omega (arith, le)) o.1)
  Orderly-le hs asks zero n' (release m c) le o = absurd o
  Orderly-le [] asks (suc n) n' (release m c) le o = absurd o
  Orderly-le (h ∷ hs) asks (suc n) zero (release m c) le o = absurd (omega (arith, le))
  Orderly-le (h ∷ hs) asks (suc n) (suc n') (release m c) le o =
      (o.0, Orderly-le hs asks n n' c (omega (arith, le)) o.1)
  Orderly-le hs asks zero n' (effect A f c) le o = absurd o
  Orderly-le hs asks (suc n) zero (effect A f c) le o = absurd (omega (arith, le))
  Orderly-le hs asks (suc n) (suc n') (effect A f c) le o =
      λ a. Orderly-le hs asks n n' (c a) (omega (arith, le)) (o a)

  drop_pointer-Orderly :
      (hs : List Mutex) (asks : List Rpc) (n i : ℕ) (c : Code env)
      → Above (device_lock i) hs
      → Orderly hs asks n c
      → Orderly hs asks (suc (suc (suc (suc n)))) (drop_pointer env i c)
  unfolding drop_pointer destroy_last
  drop_pointer-Orderly hs asks n i c above o true = (above, λ u. (refl, o))
  drop_pointer-Orderly hs asks n i c above o false =
      Orderly-le hs asks n (suc (suc (suc n))) c (omega arith) o

  -- The lock of a device is taken under that of the list.
  found_entry-Orderly :
      (sn : List ℕ) (b : Buff) (i : ℕ) (gone : Bool)
      → Orderly
          (cameras_list_lock ∷ [])
          (get_image ∷ [])
          33
          (found_entry env sn (with_pointer env sn b) i gone)
  unfolding found_entry with_pointer
  found_entry-Orderly sn b i true = λ u.
      drop_pointer-Orderly (cameras_list_lock ∷ []) (get_image ∷ []) 28 i _ (omega arith, tt)
        (refl, (refl, omega arith, refl))
  found_entry-Orderly sn b i false = λ u. (refl, (refl, omega arith, refl))

  found_key-Orderly :
      (sn : List ℕ) (b : Buff) (o : Option ℕ)
      → Orderly
          (cameras_list_lock ∷ [])
          (get_image ∷ [])
          36
          (found_key env sn (with_pointer env sn b) o)
  unfolding found_key found_device is_shutdown with_pointer
  found_key-Orderly sn b none = (refl, (refl, omega arith, refl))
  found_key-Orderly sn b (some i) =
      ((omega arith, tt), λ gone. (refl, found_entry-Orderly sn b i gone))

  look_code-Orderly : (sn : List ℕ) (b : Buff) → Orderly [] (get_image ∷ []) 38 (look_code env sn b)
  unfolding look_code find_camera_device_by_sn
  look_code-Orderly sn b = (tt, found_key-Orderly sn b)

  with_info-Orderly :
      (sn : List ℕ) (b : Buff) (o : Option DeviceInfo)
      → Orderly [] (get_image ∷ []) 23 (with_info env sn b o)
  unfolding with_info
  with_info-Orderly sn b none = (refl, omega arith, refl)
  with_info-Orderly sn b (some info) = (refl, omega arith, refl)

  opened_code-Orderly :
      (k : ℕ) (sn : List ℕ) (b : Buff) (failed : Bool) (d : Device)
      → Orderly [] (get_image ∷ []) 19 (opened_code env k sn b failed d)
  unfolding opened_code
  opened_code-Orderly k sn b true d = (tt, λ u. (refl, (refl, omega arith, refl)))
  opened_code-Orderly k sn b false d = λ i. (refl, omega arith, refl)

  replace_code-Orderly :
      (old : Option ℕ) (c : Code env)
      → Orderly (cameras_list_lock ∷ []) (get_image ∷ []) 11 c
      → Orderly (cameras_list_lock ∷ []) (get_image ∷ []) 15 (replace_code env old c)
  unfolding replace_code
  replace_code-Orderly none c o =
      Orderly-le (cameras_list_lock ∷ []) (get_image ∷ []) 11 15 c (omega arith) o
  replace_code-Orderly (some j) c o =
      drop_pointer-Orderly (cameras_list_lock ∷ []) (get_image ∷ []) 11 j c (omega arith, tt) o

  pub stage_code-Orderly :
      (k : ℕ) (stage : Stage)
      → stage ≢ idle
      → Orderly [] (pending stage) (leave_steps stage [] - 1) (stage_code env k stage)
  unfolding stage_code list_code search_code find_camera_info_by_sn open_code add_code shoot_code
  stage_code-Orderly k idle ne = absurd (ne refl)
  stage_code-Orderly k (listing code) ne = λ l. (refl, omega arith, refl)
  stage_code-Orderly k (looking sn b) ne = look_code-Orderly sn b
  stage_code-Orderly k (missing sn b) ne = (tt, λ o. (refl, with_info-Orderly sn b o))
  stage_code-Orderly k (opening sn b info) ne =
      (tt, λ r. (refl, opened_code-Orderly k sn b (nonzero r.0) r.1))
  stage_code-Orderly k (adding sn b i) ne =
      (tt, λ old. replace_code-Orderly old _ (refl, (refl, omega arith, refl)))
  stage_code-Orderly k (holding sn b i) ne = (tt, λ b'. (refl, (refl, omega arith, refl)))
  stage_code-Orderly k (dropping b i) ne =
      drop_pointer-Orderly [] (get_image ∷ []) 1 i (finish_code env b) tt (refl, omega arith, refl)

  pub call_code-Orderly : (c : Call) → Orderly [] (asked c ∷ []) 40 (call_code env c)
  unfolding call_code
  call_code-Orderly camera_metas = (tt, λ code. (refl, (refl, omega arith, refl)))
  call_code-Orderly reset_all = (refl, omega arith, refl)
  call_code-Orderly (image q) = λ b. (refl, omega arith, refl)
