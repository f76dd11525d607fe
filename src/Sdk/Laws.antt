-- ===== src/Sdk/Laws.antt =====
-- What the program relies on in the SDK, and the count of the handles in the notes of its calls.
use grpc_cplugplug_example.Base.{
  ℕ, suc, ◌+◌, ◌≤◌, ◌≡◌, ◌≢◌, List, [], ◌∷◌, length, ◌==◌, if◌then◌else◌, arith,
}
use grpc_cplugplug_example.Base.Int.{pos}
use grpc_cplugplug_example.Sdk.{
  Handle, DeviceInfo, SaveParam, destroy_handle, save_image, get_one_frame, Env, Note, created,
  requested,
}

-- The documented behaviour: MV_OK is 0; a handle is created exactly where the call says so, and else
-- the variable is left alone; a frame and an image are written inside of the buffer given.
pub record Laws (env : Env) : Type 0 where
  pub ok_is_zero : env.mv_ok ≡ pos 0
  pub created_handle :
      (h : Handle) (i : DeviceInfo) (w : env.World)
      → (env.create_handle h i w).0 ≡ env.mv_ok
      → (env.create_handle h i w).1 ≢ 0
  pub refused_handle :
      (h : Handle) (i : DeviceInfo) (w : env.World)
      → (env.create_handle h i w).0 ≢ env.mv_ok
      → (env.create_handle h i w).1 ≡ h
  pub frame_fits :
      (size msec : ℕ) (h : Handle) (w : env.World)
      → length (env.call (get_one_frame size msec) h w).0.2 ≤ size
  pub image_fits :
      (p : SaveParam) (h : Handle) (w : env.World)
      → (length (env.call (save_image p) h w).0.2 ≤ p.buffer_size)
        × ((env.call (save_image p) h w).0.1 ≤ p.buffer_size)

-- How often a handle was created, and destroyed.
abbrev pub created_count : ℕ → List Note → ℕ
created_count h [] = 0
created_count h (created k ∷ t) = if k == h then suc (created_count h t) else created_count h t
created_count h (_ ∷ t) = created_count h t

abbrev pub destroyed_count : ℕ → List Note → ℕ
destroyed_count h [] = 0
destroyed_count h (requested destroy_handle k ∷ t) =
    if k == h then suc (destroyed_count h t) else destroyed_count h t
destroyed_count h (_ ∷ t) = destroyed_count h t

-- How often a handle is held by an object that holds `k`.
abbrev pub held : Handle → ℕ → ℕ
held k h = if k == h then 1 else 0

-- From the one moment to the other, with what is held of each handle: what was created in between
-- and not destroyed is held now, and nothing else is.
abbrev pub Conserves : List Note → (ℕ → ℕ) → List Note → (ℕ → ℕ) → Type 0
Conserves t f t' f' =
    (h : ℕ)
    → h ≢ 0
    → created_count h t' + (destroyed_count h t + f h)
      ≡ created_count h t + (destroyed_count h t' + f' h)

pub Conserves-trans :
    (t : List Note) (f : ℕ → ℕ) (u : List Note) (g : ℕ → ℕ) (v : List Note) (k : ℕ → ℕ)
    → Conserves t f u g
    → Conserves u g v k
    → Conserves t f v k
Conserves-trans t f u g v k p q h ne = omega (arith, p h ne, q h ne)
