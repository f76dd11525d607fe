-- ===== src/Provider/Shared.antt =====
-- `std::shared_ptr<CameraDevice>` as src/camera_service.cc uses it: the objects that are alive, each
-- with the number of its owners. An object is named by its place, which is not used again.
pub mod Heap
use grpc_cplugplug_example.Base.{
  ℕ, zero, suc, ◌+◌, ◌-◌, Option, none, some, List, [], ◌∷◌, ◌++◌, length, set, ◌==◌, if◌then◌else◌,
  Result, ok, fault, bad_access, ◌>>=◌,
}
use grpc_cplugplug_example.Sdk.{Env, Sys}
use grpc_cplugplug_example.Device.{Device}
use grpc_cplugplug_example.Provider.{destroy_device}

pub record Object : Type 0 where
  pub device : Device
  pub owners : ℕ

-- `none` where the object was deleted.
abbrev pub Objects : Type 0
Objects = List (Option Object)

abbrev pub at : Objects → ℕ → Option Object
at [] i = none
at (x ∷ os) zero = x
at (x ∷ os) (suc i) = at os i

-- `make_shared`, whose owner is the caller.
unfoldable pub make_shared : Objects → Device → ℕ × Objects
make_shared os d = (length os, os ++ (some (record { device = d; owners = 1 }) ∷ []))

-- A copy of a pointer; the object must be alive.
unfoldable pub share_found : Objects → ℕ → Option Object → Result Objects
share_found os i none = fault bad_access
share_found os i (some o) = ok (set os i (some (record o { owners = o.owners + 1 })))

unfoldable pub share : Objects → ℕ → Result Objects
unfolding share_found
share os i = share_found os i (at os i)

module _ (env : Env) where
  -- The end of a pointer: the last one deletes the object.
  unfoldable pub release_found :
      Objects → ℕ → Option Object → Sys env.World → Result (Objects × Sys env.World)
  release_found os i none s = fault bad_access
  release_found os i (some o) s =
      if o.owners == 1
      then (destroy_device env o.device s >>= λ s'. ok (set os i none, s'))
      else ok (set os i (some (record o { owners = o.owners - 1 })), s)

  unfoldable pub release : Objects → ℕ → Sys env.World → Result (Objects × Sys env.World)
  unfolding release_found
  release os i s = release_found os i (at os i) s
