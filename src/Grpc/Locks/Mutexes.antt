-- ===== src/Grpc/Locks/Mutexes.antt =====
-- The mutexes of src/camera_service.cc: which are the same, and which a thread holds.
use grpc_cplugplug_example.Base.{
  ◌≡◌, refl, ap, inl, inr, List, [], ◌∷◌, Bool, true, false, if◌then◌else◌, ==_iff, Bool-cases,
}
use grpc_cplugplug_example.Grpc.Locks.{
  Mutex, camera_info_list_lock, cameras_list_lock, device_lock, new_device_lock, same_mutex,
}

-- Whether the mutex is among those that a thread holds.
abbrev pub has : Mutex → List Mutex → Bool
has m [] = false
has m (h ∷ hs) = if same_mutex h m then true else has m hs

-- The mutexes behind an unlock.
abbrev pub unlock : Mutex → List Mutex → List Mutex
unlock m [] = []
unlock m (h ∷ hs) = if same_mutex h m then hs else h ∷ unlock m hs

pub same_mutex_refl : (m : Mutex) → same_mutex m m ≡ true
same_mutex_refl camera_info_list_lock = refl
same_mutex_refl cameras_list_lock = refl
same_mutex_refl (device_lock i) = (==_iff i i).1 refl
same_mutex_refl (new_device_lock i) = (==_iff i i).1 refl

pub same_mutex_eq : (h m : Mutex) → same_mutex h m ≡ true → h ≡ m
same_mutex_eq camera_info_list_lock camera_info_list_lock e = refl
same_mutex_eq cameras_list_lock cameras_list_lock e = refl
same_mutex_eq (device_lock i) (device_lock j) e = ap device_lock ((==_iff i j).0 e)
same_mutex_eq (new_device_lock i) (new_device_lock j) e = ap new_device_lock ((==_iff i j).0 e)
same_mutex_eq camera_info_list_lock cameras_list_lock e = absurd (cc e)
same_mutex_eq camera_info_list_lock (device_lock j) e = absurd (cc e)
same_mutex_eq camera_info_list_lock (new_device_lock j) e = absurd (cc e)
same_mutex_eq cameras_list_lock camera_info_list_lock e = absurd (cc e)
same_mutex_eq cameras_list_lock (device_lock j) e = absurd (cc e)
same_mutex_eq cameras_list_lock (new_device_lock j) e = absurd (cc e)
same_mutex_eq (device_lock i) camera_info_list_lock e = absurd (cc e)
same_mutex_eq (device_lock i) cameras_list_lock e = absurd (cc e)
same_mutex_eq (device_lock i) (new_device_lock j) e = absurd (cc e)
same_mutex_eq (new_device_lock i) camera_info_list_lock e = absurd (cc e)
same_mutex_eq (new_device_lock i) cameras_list_lock e = absurd (cc e)
same_mutex_eq (new_device_lock i) (device_lock j) e = absurd (cc e)

pub has-unlock : (m x : Mutex) (hs : List Mutex) → has m (unlock x hs) ≡ true → has m hs ≡ true
has-unlock m x [] e = e
has-unlock m x (h ∷ hs) e = elim (Bool-cases (same_mutex h m)) [
  | inl same ↦ rw same refl
  | inr other ↦ elim (Bool-cases (same_mutex h x)) [
    | inl taken ↦ rw other (rw taken at e)
    | inr left ↦ rw other (has-unlock m x hs (rw (left, other) at e))
  ]
]
