-- ===== src/Grpc/Locks/Writes.antt =====
-- Which mutex of src/camera_service.cc guards which data, and what the effects of the methods write
-- under the mutexes that their thread holds.
use mathlib.Core.Option.{some_inj}
use grpc_cplugplug_example.Base.{
  ℕ, ◌≡◌, refl, ap, sym, ◌∙◌, length, inl, inr, Option, none, some, List, [], ◌∷◌, set, true, false,
  ◌==◌, ==_iff, Within, Within->>=, Result-cases, Bool-cases, Option-cases,
}
use grpc_cplugplug_example.Buffer.{Buff}
use grpc_cplugplug_example.Sdk.{DeviceInfo, Env, Sys}
use grpc_cplugplug_example.Device
use grpc_cplugplug_example.Device.{Device}
use grpc_cplugplug_example.Device.Picture
use grpc_cplugplug_example.Provider.{destroy_device}
use grpc_cplugplug_example.Provider.Shared.{Object, Objects, at, make_shared, share, share_found}
use grpc_cplugplug_example.Provider.Shared.Heap.{at-set, at-append, at-length}
use grpc_cplugplug_example.Grpc.Threads.{Shared}
use grpc_cplugplug_example.Grpc.Threads.Advances.{Any}
use grpc_cplugplug_example.Grpc.Locks.{
  Mutex, camera_info_list_lock, cameras_list_lock, device_lock, new_device_lock, object, drop_owner,
  destroy, erase_key, share_pointer,
}
use grpc_cplugplug_example.Grpc.Locks.Calls.{
  start_new, destroy_new, keep_new, insert_key, shoot_object, enumerate,
}
use grpc_cplugplug_example.Grpc.Locks.Mutexes.{has}

module _ (env : Env) where
  -- What the mutex guards is the same in both states: the list of the cameras found, the map of the
  -- open ones, the device of the object, if there is one.
  abbrev pub Same : Mutex → Shared env → Shared env → Type 0
  Same camera_info_list_lock sh sh' = sh'.camera_info_list ≡ sh.camera_info_list
  Same cameras_list_lock sh sh' = sh'.cameras_list ≡ sh.cameras_list
  Same (device_lock i) sh sh' =
      (o : Object)
      → at sh.objects i ≡ some o
      → (o' : Object) × (at sh'.objects i ≡ some o') × (o'.device ≡ o.device)
  Same (new_device_lock k) sh sh' = Unit {0}

  -- A change that a thread may make which holds the mutexes `hs`.
  abbrev pub Keeps : List Mutex → Shared env → Shared env → Type 0
  Keeps hs sh sh' = (m : Mutex) → has m hs ≡ false → Same m sh sh'

  -- A change of the objects and the system only.
  Keeps-objects :
      (hs : List Mutex) (sh : Shared env) (os : Objects) (s : Sys env.World)
      → ((i : ℕ)
          → has (device_lock i) hs ≡ false
          → Same (device_lock i) sh (record sh { objects = os; sys = s }))
      → Keeps hs sh (record sh { objects = os; sys = s })
  Keeps-objects hs sh os s f camera_info_list_lock e = refl
  Keeps-objects hs sh os s f cameras_list_lock e = refl
  Keeps-objects hs sh os s f (device_lock i) e = f i e
  Keeps-objects hs sh os s f (new_device_lock k) e = tt

  pub Same-refl : (sh : Shared env) (m : Mutex) → Same m sh sh
  Same-refl sh camera_info_list_lock = refl
  Same-refl sh cameras_list_lock = refl
  Same-refl sh (device_lock i) = λ o e. (o, e, refl)
  Same-refl sh (new_device_lock k) = tt

  -- A write to the object `j` leaves the device of `i` as it is, if it is another object or has the
  -- same device.
  Same-set :
      (sh : Shared env) (j : ℕ) (o x : Object) (i : ℕ)
      → at sh.objects j ≡ some o
      → x.device ≡ o.device
      → Same (device_lock i) sh (record sh { objects = set sh.objects j (some x) })
  Same-set sh j o x i e same o' e' = elim (Bool-cases (j == i)) [
    | inl q ↦
        let j=i : j ≡ i = (==_iff j i).0 q in
        let o=o' : o ≡ o' = some_inj.0 (sym e ∙ (rw (← j=i) at e')) in
        (x, at-set sh.objects j i o (some x) e ∙ (rw q refl), same ∙ ap (λ y. y.device) o=o')
    | inr q ↦ (o', at-set sh.objects j i o (some x) e ∙ (rw q e'), refl)
  ]

  Keeps-sys :
      (hs : List Mutex) (sh : Shared env) (s : Sys env.World) → Keeps hs sh (record sh { sys = s })
  Keeps-sys hs sh s = Keeps-objects hs sh sh.objects s (λ i h o e. (o, e, refl))

  -- A write to an object whose device's mutex is held.
  Keeps-held :
      (hs : List Mutex) (sh : Shared env) (j : ℕ) (o : Object) (x : Option Object)
      (s : Sys env.World)
      → at sh.objects j ≡ some o
      → has (device_lock j) hs ≡ true
      → Keeps hs sh (record sh { objects = set sh.objects j x; sys = s })
  Keeps-held hs sh j o x s e h = Keeps-objects hs sh (set sh.objects j x) s λ i free o' e'.
      elim (Bool-cases (j == i)) [
        | inl q ↦ absurd (cc ((==_iff j i).0 q, h, free))
        | inr q ↦ (o', at-set sh.objects j i o x e ∙ (rw q e'), refl)
      ]

  pub drop_owner-Keeps :
      (hs : List Mutex) (i : ℕ) (sh : Shared env)
      → Within Any (λ r. Keeps hs sh r.1) (drop_owner env i sh)
  unfolding drop_owner object
  drop_owner-Keeps hs i sh = elim (Option-cases (at sh.objects i)) [
    | inl e ↦ rw e tt
    | inr (o, e) ↦ rw e (Keeps-objects hs sh _ sh.sys (λ j h. Same-set sh i o _ j e refl))
  ]

  share-Keeps :
      (hs : List Mutex) (i : ℕ) (sh : Shared env)
      → Within Any (λ os. Keeps hs sh (record sh { objects = os })) (share sh.objects i)
  unfolding share share_found
  share-Keeps hs i sh = elim (Option-cases (at sh.objects i)) [
    | inl e ↦ rw e tt
    | inr (o, e) ↦ rw e (Keeps-objects hs sh _ sh.sys (λ j h. Same-set sh i o _ j e refl))
  ]

  pub share_pointer-Keeps :
      (hs : List Mutex) (i : ℕ) (sh : Shared env)
      → Within Any (λ r. Keeps hs sh r.1) (share_pointer env i sh)
  unfolding share_pointer
  share_pointer-Keeps hs i sh =
      Within->>= Any (λ os. Keeps hs sh (record sh { objects = os }))
        (λ (r : Unit {0} × Shared env). Keeps hs sh r.1) (share sh.objects i) _
        (share-Keeps hs i sh) λ os k. k

  -- The map is what the mutex of the map guards.
  pub erase_key-Keeps :
      (sn : List ℕ) (sh : Shared env)
      → Within Any (λ r. Keeps (cameras_list_lock ∷ []) sh r.1) (erase_key env sn sh)
  unfolding erase_key
  erase_key-Keeps sn sh camera_info_list_lock h = refl
  erase_key-Keeps sn sh cameras_list_lock h = absurd (cc h)
  erase_key-Keeps sn sh (device_lock j) h = λ o e. (o, e, refl)
  erase_key-Keeps sn sh (new_device_lock k) h = tt

  pub enumerate-Keeps :
      (sh : Shared env)
      → Within Any (λ r. Keeps (camera_info_list_lock ∷ []) sh r.1) (enumerate env sh)
  unfolding enumerate
  enumerate-Keeps sh camera_info_list_lock h = absurd (cc h)
  enumerate-Keeps sh cameras_list_lock h = refl
  enumerate-Keeps sh (device_lock j) h = λ o e. (o, e, refl)
  enumerate-Keeps sh (new_device_lock k) h = tt

  -- A new device is the thread's own.
  pub start_new-Keeps :
      (hs : List Mutex) (info : DeviceInfo) (sh : Shared env)
      → Within Any (λ r. Keeps hs sh r.1) (start_new env info sh)
  unfolding start_new
  start_new-Keeps hs info sh =
      elim (Result-cases (Device.start env (Device.init env) info sh.sys)) [
        | inl (r, e) ↦ rw e (Keeps-sys hs sh r.2)
        | inr (f, e) ↦ rw e tt
      ]

  pub destroy_new-Keeps :
      (hs : List Mutex) (d : Device) (sh : Shared env)
      → Within Any (λ r. Keeps hs sh r.1) (destroy_new env d sh)
  unfolding destroy_new
  destroy_new-Keeps hs d sh = elim (Result-cases (destroy_device env d sh.sys)) [
    | inl (s', e) ↦ rw e (Keeps-sys hs sh s')
    | inr (f, e) ↦ rw e tt
  ]

  pub destroy-Keeps :
      (hs : List Mutex) (i : ℕ) (sh : Shared env)
      → has (device_lock i) hs ≡ true
      → Within Any (λ r. Keeps hs sh r.1) (destroy env i sh)
  unfolding destroy object
  destroy-Keeps hs i sh h = elim (Option-cases (at sh.objects i)) [
    | inl e ↦ rw e tt
    | inr (o, e) ↦ elim (Result-cases (destroy_device env o.device sh.sys)) [
      | inl (s', q) ↦ rw (e, q) (Keeps-held hs sh i o none s' e h)
      | inr (f, q) ↦ rw (e, q) tt
    ]
  ]

  pub shoot_object-Keeps :
      (hs : List Mutex) (b : Buff) (i : ℕ) (sh : Shared env)
      → has (device_lock i) hs ≡ true
      → Within Any (λ r. Keeps hs sh r.1) (shoot_object env b i sh)
  unfolding shoot_object object
  shoot_object-Keeps hs b i sh h = elim (Option-cases (at sh.objects i)) [
    | inl e ↦ rw e tt
    | inr (o, e) ↦ elim (Result-cases (Picture.take_picture env o.device none b sh.sys)) [
      | inl (r, q) ↦ rw (e, q) (Keeps-held hs sh i o _ r.3 e h)
      | inr (f, q) ↦ rw (e, q) tt
    ]
  ]

  pub keep_new-Keeps :
      (hs : List Mutex) (d : Device) (sh : Shared env)
      → Within Any (λ r. Keeps hs sh r.1) (keep_new env d sh)
  unfolding keep_new make_shared
  keep_new-Keeps hs d sh = Keeps-objects hs sh _ sh.sys λ i h o e.
      elim (Bool-cases (length sh.objects == i)) [
        | inl q ↦ absurd (cc (at-length sh.objects, (==_iff (length sh.objects) i).0 q, e))
        | inr q ↦ (o, at-append sh.objects i _ ∙ (rw q e), refl)
      ]

  pub insert_key-Keeps :
      (sn : List ℕ) (i : ℕ) (sh : Shared env)
      → Within Any (λ r. Keeps (cameras_list_lock ∷ []) sh r.1) (insert_key env sn i sh)
  unfolding insert_key
  insert_key-Keeps sn i sh =
      Within->>= Any (λ os. Keeps [] sh (record sh { objects = os }))
        (λ r. Keeps (cameras_list_lock ∷ []) sh r.1) (share sh.objects i) _ (share-Keeps [] i sh)
        λ os k m h. under _ os m h (k m refl)
    where
      under :
          (l : List (List ℕ × ℕ)) (os : Objects) (m : Mutex)
          → has m (cameras_list_lock ∷ []) ≡ false
          → Same m sh (record sh { objects = os })
          → Same m sh (record sh { cameras_list = l; objects = os })
      under l os camera_info_list_lock h k = refl
      under l os cameras_list_lock h k = absurd (cc h)
      under l os (device_lock i) h k = k
      under l os (new_device_lock k') h k = tt
