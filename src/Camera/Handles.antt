-- ===== src/Camera/Handles.antt =====
-- The handle of a `CMvCamera`, and what `Open`, `Close` and the destructor make of it.
use grpc_cplugplug_example.Base.{
  ◌≡◌, ◌≢◌, refl, sym, ◌∙◌, ◌⊎◌, inl, inr, Option, none, some, ◌∷◌, ◌==◌, Bool-cases, arith,
}
use grpc_cplugplug_example.Base.Int.{ℤ, pos, eq_ℤ-cases}
use grpc_cplugplug_example.Sdk.{DeviceInfo, open_device, created, Env, Sys}
use grpc_cplugplug_example.Sdk.Laws.{Laws, held, Conserves}
use grpc_cplugplug_example.Camera.{
  Camera, init, destroy, create, open_created, open_new, open_camera, close,
}

module _ (env : Env) where
  pub close_lem :
      (c : Camera) (s : Sys env.World)
      → let r = close env c s in
        (r.1.handle ≡ 0) × Conserves s.trace (held c.handle) r.2.trace (held 0)
  unfolding close
  close_lem c s = elim (Bool-cases (c.handle == 0)) [
    | inl free ↦ rw free (ground arith, λ h n. ground arith)
    | inr taken ↦ rw taken (refl, λ h n. ground arith)
  ]

  pub destroy_lem :
      (c : Camera) (s : Sys env.World)
      → Conserves s.trace (held c.handle) (destroy env c s).trace (held 0)
  unfolding destroy
  destroy_lem c s h n = elim (Bool-cases (c.handle == 0)) [
    | inl free ↦ rw free (ground arith)
    | inr taken ↦ rw taken (ground arith)
  ]

module _ (env : Env) (laws : Laws env) where
  -- What `Open` comes to: a success with a handle, or a failure that leaves the object alone; in
  -- both cases every handle that was created is destroyed or held.
  pub record Opened (c : Camera) (s : Sys env.World) (r : ℤ × Camera × Sys env.World) : Type 0 where
    pub outcome :
        ((r.0 ≡ env.mv_ok) × (r.1.handle ≢ 0)) ⊎ ((r.0 ≢ env.mv_ok) × (r.1.handle ≡ c.handle))
    pub conserves : Conserves s.trace (held c.handle) r.2.trace (held r.1.handle)

  open_created-Opened :
      (c : Camera) (s : Sys env.World)
      → c.handle ≢ 0
      → let r = open_created env c s in
        (((r.0 ≡ env.mv_ok) × (r.1.handle ≢ 0)) ⊎ ((r.0 ≢ env.mv_ok) × (r.1.handle ≡ 0)))
        × Conserves s.trace (held c.handle) r.2.trace (held r.1.handle)
  unfolding open_created
  open_created-Opened c s ne =
      elim (eq_ℤ-cases env.mv_ok (env.call open_device c.handle s.world).0) [
        | inl (e, p) ↦ rw e (inl (sym p, ne), λ h n. ground arith)
        | inr (e, p) ↦ rw e (inr (λ q. p (sym q), refl), λ h n. ground arith)
      ]

  open_new-Opened :
      (c : Camera) (info : DeviceInfo) (s : Sys env.World)
      → c.handle ≡ 0
      → Opened c s (open_new env c info s)
  unfolding open_new create
  open_new-Opened c info s free =
      let made = env.create_handle c.handle info s.world in
      elim (eq_ℤ-cases env.mv_ok made.0) [
        | inl (e, p) ↦
            let k : made.1 ≢ 0 = laws.created_handle c.handle info s.world (sym p) in
            let next =
              open_created-Opened (record { handle = made.1 })
                (record { world = made.2; trace = created made.1 ∷ s.trace }) k in
            rw e (record {
              outcome = ground (arith, next.0);
              conserves = λ h n. ground (arith, next.1 h n);
            })
        | inr (e, p) ↦
            let k : made.1 ≡ c.handle =
              laws.refused_handle c.handle info s.world (λ q. p (sym q)) in
            rw e (record { outcome = inr (λ q. p (sym q), k); conserves = λ h n. ground arith })
      ]

  -- With an SDK that behaves as documented, and error codes for a wrong parameter and a wrong
  -- order of calls that are not 0, `Open` succeeds with a handle, or fails and leaves the handle
  -- of the object as it was; and every handle created on the way is destroyed again or held, and
  -- none twice.
  pub open_camera-Opened :
      (c : Camera) (info : Option DeviceInfo) (s : Sys env.World)
      → env.mv_e_parameter ≢ pos 0
      → env.mv_e_callorder ≢ pos 0
      → Opened c s (open_camera env c info s)
  unfolding open_camera
  open_camera-Opened c none s np nc = record {
    outcome = inr (λ e. np (e ∙ laws.ok_is_zero), refl);
    conserves = λ h n. refl;
  }
  open_camera-Opened c (some info) s np nc = elim (Bool-cases (c.handle == 0)) [
    | inl free ↦ rw free (open_new-Opened c info s (ground arith))
    | inr taken ↦
        rw taken
          (record { outcome = inr (λ e. nc (e ∙ laws.ok_is_zero), refl); conserves = λ h n. refl })
  ]

  -- `Open` on an object that was just made.
  pub open_fresh-Opened :
      (info : DeviceInfo) (s : Sys env.World) → Opened init s (open_camera env init (some info) s)
  unfolding open_camera init
  open_fresh-Opened info s = open_new-Opened init info s refl
