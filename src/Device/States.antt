-- ===== src/Device/States.antt =====
-- The states that a `CameraDevice` can be in.
use grpc_cplugplug_example.Base.{
  ℕ, ◌^◌, ◌<◌, ◌≡◌, ◌≢◌, refl, Bool, true, false, Option, none, some, arith,
}
use grpc_cplugplug_example.Buffer.Valid.{IsValid, init-IsValid}
use grpc_cplugplug_example.Sdk.{Env}
use grpc_cplugplug_example.Sdk.Laws.{held}
use grpc_cplugplug_example.Camera.{Camera}
use grpc_cplugplug_example.Device.{Device, init}

-- With no camera nothing is open; a camera has a handle and is open.
abbrev pub CameraState : Option Camera → Bool → Bool → Type 0
CameraState none o g = (o ≡ false) × (g ≡ false)
CameraState (some c) o g = (c.handle ≢ 0) × (o ≡ true)

pub record IsConsistent (d : Device) : Type 0 where
  pub state : CameraState d.camera d.camera_open d.grapping
  pub cache : IsValid d.cache_data
  pub size : d.default_buff_size < 2 ^ 32

abbrev pub IsClosed : Device → Type 0
IsClosed d = (d.camera ≡ none) × (d.camera_open ≡ false) × (d.grapping ≡ false)

abbrev pub IsReady : Device → Type 0
IsReady d = (d.camera ≢ none) × (d.camera_open ≡ true) × (d.grapping ≡ true)

-- How often the device holds a handle.
abbrev pub camera_held : Option Camera → ℕ → ℕ
camera_held none h = 0
camera_held (some c) h = held c.handle h

abbrev pub device_held : Device → ℕ → ℕ
device_held d = camera_held d.camera

pub init-IsConsistent : (env : Env) → IsConsistent (init env)
unfolding init
init-IsConsistent env = record { state = (refl, refl); cache = init-IsValid; size = omega arith }

pub init-IsClosed : (env : Env) → IsClosed (init env)
unfolding init
init-IsClosed env = (refl, refl, refl)
