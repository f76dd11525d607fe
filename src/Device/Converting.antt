-- ===== src/Device/Converting.antt =====
-- `_to_jpg`, and the parts of `take_picture` that touch the buffers only.
use grpc_cplugplug_example.Base.{
  ℕ, ◌+◌, ◌%◌, ◌^◌, ◌≤◌, ◌<◌, ◌≡◌, refl, ◌⊎◌, inl, inr, true, Option, List, [], ◌∷◌, length, ltb,
  ◌==◌, ok, arith, Returns, Returns->>=, Returns-Excused, Excused, Excused->>=, Excused-map, ◌>>=◌,
  Bool-cases,
}
use grpc_cplugplug_example.Base.Int.{ℤ, pos, eq_ℤ, eq_ℤ_iff, to_uint32}
use grpc_cplugplug_example.Buffer
use grpc_cplugplug_example.Buffer.{Buff}
use grpc_cplugplug_example.Buffer.Memory.{memcpy_lem, length-overwrite}
use grpc_cplugplug_example.Buffer.Valid.{IsValid, IsMalloc, ensure_size_copy-Ensured}
use grpc_cplugplug_example.Sdk.{FrameInfo, Env, Sys, get_sys_time_ms}
use grpc_cplugplug_example.Sdk.Laws.{Laws}
use grpc_cplugplug_example.Camera
use grpc_cplugplug_example.Camera.{Camera}
use grpc_cplugplug_example.Device.{Device, Times}
use grpc_cplugplug_example.Device.Picture.{
  ImageParameter, choose, save_param, record_time, fill, prepare, Shot, converted, to_jpg,
}
use grpc_cplugplug_example.Device.Starting.{SameHandles}

-- `get_buff_size` gives the size back through an `int`.
pub size_round : (b : Buff) → IsValid b → to_uint32 (Buffer.get_buff_size b) ≡ b.buff_max_size
unfolding Buffer.get_buff_size
size_round b v = ground (arith, v.word)

-- What the SDK writes inside of the buffer keeps it valid, and its two sizes.
pub fill_lem :
    (b : Buff) (written : List ℕ)
    → IsValid b
    → length written ≤ b.buff_max_size
    → Returns
        (λ r. IsValid r × (r.buff_max_size ≡ b.buff_max_size) × (r.data_size ≡ b.data_size))
        (fill b written)
unfolding fill
fill_lem b [] v h = (v, refl, refl)
fill_lem b (x ∷ xs) v h = ground (
  arith,
  memcpy_lem (Buffer.bytes b.buff) 0 (x ∷ xs),
  length-overwrite (Buffer.bytes b.buff) 0 (x ∷ xs),
)

pub record_time_lem : (t : Times) (t1 t2 : ℕ) → Excused (λ r. Unit {0}) (record_time t t1 t2)
unfolding record_time
record_time_lem t t1 t2 = elim (Bool-cases ((t.count + 1) % 2 ^ 64 == 0)) [
  | inl round ↦ rw round tt
  | inr fine ↦ rw fine tt
]

set_size_lem :
    (b : Buff) (n : ℕ)
    → IsValid b
    → Excused (λ r. IsValid r) (Buffer.set_data_size b n >>= λ r. ok r.1)
unfolding Buffer.set_data_size
set_size_lem b n v = elim (Bool-cases (ltb n b.buff_max_size)) [
  | inl below ↦ rw below (ground (arith, v.shape, v.word))
  | inr full ↦ rw full tt
]

-- The parts of a device that a picture does not touch.
abbrev pub SameDevice : Device → Device → Type 0
SameDevice d e =
    (e.camera ≡ d.camera)
    × (e.camera_open ≡ d.camera_open)
    × (e.grapping ≡ d.grapping)
    × (e.cache_data ≡ d.cache_data)
    × (e.default_buff_size ≡ d.default_buff_size)

module _ (env : Env) where
  -- The allocator gives blocks of the size that is asked for, at any time.
  abbrev pub Allocates : Type 0
  Allocates = (w : env.World) → IsMalloc (env.malloc w)

  pub prepare_lem :
      (d : Device) (b : Buff) (s : Sys env.World)
      → Allocates
      → d.default_buff_size < 2 ^ 32
      → IsValid b
      → Returns (λ r. IsValid r × (r.data_size ≤ b.data_size)) (prepare env d b s)
  unfolding prepare Buffer.ensure_size
  prepare_lem d b s a w v = elim (Bool-cases (ltb 0 d.default_buff_size)) [
    | inr none_asked ↦ rw none_asked (v, omega arith)
    | inl asked ↦ rw asked (
        Returns->>= _ _ (Buffer.ensure_size_copy (env.malloc s.world) b d.default_buff_size true) _
          (ensure_size_copy-Ensured (env.malloc s.world) b d.default_buff_size true (a s.world) v w)
          λ r p. (p.valid, ground (arith, p.outcome)))
  ]

  -- A shot that left the device's camera alone.
  abbrev pub Shoots : Device → Buff → Sys env.World → Shot env → Type 0
  Shoots d b s r =
      IsValid r.2
      × SameDevice d r.1
      × SameHandles s.trace r.3.trace
      × ((r.0 ≡ pos 0) ⊎ (r.2.data_size ≤ b.data_size))

  converted_lem :
      (d : Device) (ret : ℤ) (image_len : ℕ) (b : Buff) (t1 : ℕ) (s : Sys env.World)
      → IsValid b
      → Excused (Shoots d b s) (converted env d ret image_len b t1 s)
  unfolding converted
  converted_lem d ret image_len b t1 s v =
      Excused->>= _ _ (record_time d.conv_image t1 (env.now s.world).0) _
        (record_time_lem d.conv_image t1 (env.now s.world).0)
        λ times u. elim (Bool-cases (eq_ℤ ret (pos 0))) [
          | inr failed ↦
              rw failed (v, (refl, refl, refl, refl, refl), (λ h. (refl, refl)), inr (omega arith))
          | inl done ↦ rw done (
              Excused->>= _ _ (Buffer.set_data_size b image_len >>= λ r. ok r.1) _
                (set_size_lem b image_len v)
                λ b' w. (
                  w,
                  (refl, refl, refl, refl, refl),
                  (λ h. (refl, refl)),
                  inl ((eq_ℤ_iff ret (pos 0)).0 done),
                ))
        ]

  module _ (laws : Laws env) (alloc : Allocates) where
    pub to_jpg_lem :
        (d : Device) (c : Camera) (pixels : List ℕ) (frame : FrameInfo)
        (param : Option ImageParameter) (b : Buff) (s : Sys env.World)
        → d.default_buff_size < 2 ^ 32
        → IsValid b
        → Excused (Shoots d b s) (to_jpg env d c pixels frame param b s)
    unfolding to_jpg Camera.save save_param
    to_jpg_lem d c pixels frame param b s w v =
        Excused->>= _ _ (prepare env d b s) _
          (Returns-Excused _ _ (prepare env d b s) (prepare_lem d b s alloc w v) (λ r p. p))
          λ b1 p.
            let t1 = get_sys_time_ms env s in
            let q = save_param (choose d frame param) frame pixels b1 in
            let r = Camera.save env q c t1.1 in
            let fits : length r.0.2 ≤ b1.buff_max_size =
              omega (arith, (laws.image_fits q c.handle t1.1.world).0, size_round b1 p.0) in
            Excused->>= _ _ (fill b1 r.0.2) _
              (Returns-Excused _ _ (fill b1 r.0.2) (fill_lem b1 r.0.2 p.0 fits) (λ x y. y))
              λ b2 f.
                Excused-map (Shoots d b2 r.1) (Shoots d b s) _
                  (converted_lem d r.0.0 r.0.1 b2 t1.0 r.1 f.0)
                  λ x y. (y.0, y.1, (λ h. y.2 h), ground (arith, y.3, f.2, p.1))
