-- ===== src/Device/Starting.antt =====
-- `_open_camera`, `_start_grapping` and `start`.
use grpc_cplugplug_example.Base.{
  ℕ, ◌^◌, ◌<◌, ◌≡◌, ◌≢◌, refl, sym, ap, ◌∙◌, ◌⊎◌, inl, inr, true, false, none, some, List, arith,
  Returns, Returns-map, Bool-cases,
}
use grpc_cplugplug_example.Base.Int.{ℤ, pos, nonzero, nonzero_iff, eq_ℤ, eq_ℤ-cases, eq_ℤ_iff}
use grpc_cplugplug_example.Sdk.{DeviceInfo, Env, Sys, Note}
use grpc_cplugplug_example.Sdk.Laws.{Laws, held, created_count, destroyed_count, Conserves}
use grpc_cplugplug_example.Camera
use grpc_cplugplug_example.Camera.{Camera}
use grpc_cplugplug_example.Camera.Handles.{open_fresh-Opened, destroy_lem}
use grpc_cplugplug_example.Device.{
  Device, Out, start_with, start_grapping, init_cam_params, set_packet_size, opened, open_camera,
  start_opened, start,
}
use grpc_cplugplug_example.Device.States.{IsConsistent, IsClosed, IsReady, device_held}
use grpc_cplugplug_example.Device.Stopping.{close_camera-CameraClosed}

-- The notes tell of no handle made or destroyed in between.
abbrev pub SameHandles : List Note → List Note → Type 0
SameHandles t t' =
    (h : ℕ)
    → (created_count h t' ≡ created_count h t) × (destroyed_count h t' ≡ destroyed_count h t)

ne_of_nonzero : (a : ℤ) → nonzero a ≡ true → a ≢ pos 0
ne_of_nonzero a h e = cc (h, (nonzero_iff a).1 e)

nonzero_of_ne : (a : ℤ) → a ≢ pos 0 → nonzero a ≡ true
nonzero_of_ne a h = elim (Bool-cases (nonzero a)) [
  | inl yes' ↦ yes'
  | inr no' ↦ absurd (h ((nonzero_iff a).0 no'))
]

module _ (env : Env) where
  set_packet_size-SameHandles :
      (info : DeviceInfo) (c : Camera) (s : Sys env.World)
      → SameHandles s.trace (set_packet_size env info c s).trace
  unfolding set_packet_size Camera.packet_size Camera.set_int
  set_packet_size-SameHandles info c s h = ground arith

  init_cam_params_lem :
      (n : ℕ) (c : Camera) (s : Sys env.World)
      → n < 2 ^ 32
      → let r = init_cam_params env n c s in (r.1 < 2 ^ 32) × SameHandles s.trace r.2.trace
  unfolding init_cam_params Camera.set_enum Camera.get_int
  init_cam_params_lem n c s h = (ground arith, λ k. (refl, refl))

  -- What `_open_camera` does to a closed device.
  pub record OpenedDevice (d : Device) (s : Sys env.World) (r : Out env) : Type 0 where
    pub outcome :
        ((r.0 ≡ pos 0)
          × (c : Camera) × (n : ℕ) × (c.handle ≢ 0)
          × (n < 2 ^ 32)
          × (r.1 ≡ record d { camera = some c; default_buff_size = n; camera_open = true }))
        ⊎ ((r.0 ≢ pos 0) × (r.1 ≡ d))
    pub conserves : Conserves s.trace (λ h. 0) r.2.trace (device_held r.1)

  module _ (laws : Laws env) where
    opened-OpenedDevice :
        (d : Device) (info : DeviceInfo) (s0 : Sys env.World) (r : ℤ × Camera × Sys env.World)
        → d.default_buff_size < 2 ^ 32
        → d.camera ≡ none
        → ((r.0 ≡ env.mv_ok) × (r.1.handle ≢ 0)) ⊎ ((r.0 ≢ env.mv_ok) × (r.1.handle ≡ 0))
        → Conserves s0.trace (held 0) r.2.trace (held r.1.handle)
        → OpenedDevice d s0 (opened env d info r.0 r.1 r.2)
    unfolding opened
    opened-OpenedDevice d info s0 r w e (inl (ok_ret, has)) k =
        let p = set_packet_size-SameHandles info r.1 r.2 in
        let q = init_cam_params_lem d.default_buff_size r.1 (set_packet_size env info r.1 r.2) w in
        let test : eq_ℤ env.mv_ok r.0 ≡ true = (eq_ℤ_iff env.mv_ok r.0).1 (sym ok_ret) in
        rw test (record {
          outcome = inl (refl, r.1, _, has, q.0, refl);
          conserves = λ h n. ground (arith, k h n, p h, q.1 h);
        })
    opened-OpenedDevice d info s0 r w e (inr (failed, free)) k =
        let p = destroy_lem env r.1 r.2 in
        elim (eq_ℤ-cases env.mv_ok r.0) [
          | inl (_, same) ↦ absurd (failed (sym same))
          | inr (test, _) ↦ rw test (record {
            outcome = inr (λ z. failed (z ∙ sym laws.ok_is_zero), ground arith);
            conserves = λ h n. ground (arith, k h n, p h n);
          })
        ]

    open_camera-OpenedDevice :
        (d : Device) (info : DeviceInfo) (s : Sys env.World)
        → IsConsistent d
        → IsClosed d
        → OpenedDevice d s (open_camera env d info s)
    unfolding open_camera Camera.init
    open_camera-OpenedDevice d info s v (gone, shut, idle) =
        let p = open_fresh-Opened env laws info s in
        let q =
          opened-OpenedDevice d info s (Camera.open_camera env Camera.init (some info) s) v.size
            gone p.outcome p.conserves in
        simp (shut, gone) q

    -- What `start` comes to on a closed device.
    pub record Started (d : Device) (s : Sys env.World) (r : Out env) : Type 0 where
      pub consistent : IsConsistent r.1
      pub outcome : ((r.0 ≡ pos 0) × IsReady r.1) ⊎ ((r.0 ≢ pos 0) × (r.1.grapping ≡ false))
      pub conserves : Conserves s.trace (λ h. 0) r.2.trace (device_held r.1)

    -- `_start_grapping` of an open camera.
    record StartedGrapping (d : Device) (s : Sys env.World) (r : Out env) : Type 0 where
      outcome : ((r.0 ≡ pos 0) × (r.1 ≡ record d { grapping = true })) ⊎ ((r.0 ≢ pos 0) × (r.1 ≡ d))
      same : SameHandles s.trace r.2.trace

    start_grapping-StartedGrapping :
        (d : Device) (c : Camera) (s : Sys env.World)
        → let d' = record d { camera = some c; grapping = false } in
          Returns (StartedGrapping d' s) (start_grapping env d' s)
    unfolding start_grapping start_with Camera.start_grab
    start_grapping-StartedGrapping d c s =
        let ret = (Camera.start_grab env c s).0 in
        elim (Bool-cases (nonzero ret)) [
          | inl failed ↦ rw failed (record {
            outcome = inr (λ z. ne_of_nonzero ret failed z, refl);
            same = λ h. (refl, refl);
          })
          | inr fine ↦ rw fine (record { outcome = inl (refl, refl); same = λ h. (refl, refl) })
        ]

    start_opened-Started :
        (d : Device) (s0 : Sys env.World) (r : Out env)
        → IsConsistent d
        → IsClosed d
        → OpenedDevice d s0 r
        → Returns (Started d s0) (start_opened env r)
    unfolding start_opened
    start_opened-Started d s0 r v (gone, shut, idle) p = elim p.outcome [
      | inr (failed, same) ↦
          let q = close_camera-CameraClosed env r.1 r.2 in
          rw (nonzero_of_ne r.0 failed) (record {
            consistent =
                rw (q.device, same)
                  (record { state = (refl, idle); cache = v.cache; size = v.size });
            outcome = inr (failed, rw (q.device, same) idle);
            conserves = λ h n.
                ground
                  (arith, p.conserves h n, q.conserves h n, ap (λ e. device_held e h) q.device);
          })
      | inl (z, c, n, has, w, e) ↦
          let d1 = record d { camera = some c; camera_open = true; default_buff_size = n } in
          let d2 = record d1 { camera = some c; grapping = false } in
          let q : d1 ≡ d2 = ap (λ g. record d1 { grapping = g }) idle in
          rw (z, e ∙ q)
            (Returns-map (StartedGrapping d2 r.2) (Started d s0) (start_grapping env d2 r.2)
              (start_grapping-StartedGrapping d1 c r.2)
              λ a g. elim g.outcome [
                | inl (started, up) ↦ record {
                  consistent = rw up (record { state = (has, refl); cache = v.cache; size = w });
                  outcome = inl (started, rw up (λ none_eq. cc, refl, refl));
                  conserves = λ h k. omega (
                    arith,
                    p.conserves h k,
                    g.same h,
                    ap (λ x. device_held x h) e,
                    ap (λ x. device_held x h) up,
                  );
                }
                | inr (refused, up) ↦ record {
                  consistent = rw up (record { state = (has, refl); cache = v.cache; size = w });
                  outcome = inr (refused, rw up refl);
                  conserves = λ h k. omega (
                    arith,
                    p.conserves h k,
                    g.same h,
                    ap (λ x. device_held x h) e,
                    ap (λ x. device_held x h) up,
                  );
                }
              ])
    ]

    -- With an SDK that behaves as documented, `start` of a consistent closed device never faults.
    -- It returns 0 and the device is ready for pictures, or it returns another code and the device
    -- does not grab; the device stays consistent, and every handle that was created on the way is
    -- destroyed again or held by the device.
    pub start-Started :
        (d : Device) (info : DeviceInfo) (s : Sys env.World)
        → IsConsistent d
        → IsClosed d
        → Returns (Started d s) (start env d info s)
    unfolding start
    start-Started d info s v closed =
        start_opened-Started d s (open_camera env d info s) v closed
          (open_camera-OpenedDevice d info s v closed)
