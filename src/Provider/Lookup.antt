-- ===== src/Provider/Lookup.antt =====
-- `close_camera`, which looks into the map with the serial number as it is given.
use grpc_cplugplug_example.Base.{ℕ, ◌≡◌, ◌≢◌, refl, none, List, [], ◌∷◌, ok, Bool-cases, inl, inr}
use grpc_cplugplug_example.Text.{c_str, to_upper}
use grpc_cplugplug_example.Sdk.{Env, Sys}
use grpc_cplugplug_example.Device.{Device}
use grpc_cplugplug_example.Provider.Map.{text_eq, text_eq_iff, lookup}
use grpc_cplugplug_example.Provider.{
  Provider, found, find_camera_device_by_sn, close_found, close_camera,
}

-- The keys of the map are in upper case, as `find_or_create_camera_device` makes them.
abbrev pub UpperKeys : List (List ℕ × Device) → Type 0
UpperKeys [] = Unit {0}
UpperKeys ((k, d) ∷ m) = (to_upper k ≡ k) × UpperKeys m

lookup_not_upper :
    (k : List ℕ) (m : List (List ℕ × Device)) → UpperKeys m → to_upper k ≢ k → lookup k m ≡ none
unfolding lookup
lookup_not_upper k [] h ne = refl
lookup_not_upper k ((j, d) ∷ m) h ne = elim (Bool-cases (text_eq j k)) [
  | inl e ↦ absurd (ne (cc ((text_eq_iff j k).0 e, h.0)))
  | inr e ↦ rw e (lookup_not_upper k m h.1 ne)
]

-- With a map whose keys are in upper case, `close_camera` closes nothing for a serial number that
-- is not in upper case: the map of open cameras and the system stay as they are.
pub close_camera_not_upper :
    (env : Env) (p : Provider) (sn : List ℕ) (s : Sys env.World)
    → UpperKeys p.cameras_list
    → to_upper (c_str sn) ≢ c_str sn
    → close_camera env p sn s ≡ ok (p, s)
unfolding close_camera find_camera_device_by_sn
close_camera_not_upper env p sn s h ne =
    rw (lookup_not_upper (c_str sn) p.cameras_list h ne) (unfold found close_found in refl)
