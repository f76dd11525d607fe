-- ===== src/Device/Stopping.antt =====
-- `_stop_grapping`, `_close_camera` and `_stop_and_close`.
use grpc_cplugplug_example.Base.{
  ℕ, zero, suc, ◌+◌, ◌≤◌, ◌<◌, ◌≡◌, refl, ap, subst, ◌∙◌, ◌⊎◌, inl, inr, Bool, true, false, not,
  ◌&&◌, Option, none, some, List, [], ◌∷◌, arith, Returns, Returns->>=, Bool-cases,
}
use grpc_cplugplug_example.Base.Int.{ℤ, pos, nonzero, eq_ℤ, eq_ℤ-cases, nonzero_iff}
use grpc_cplugplug_example.Sdk.{Env, Sys, Note, requested, stop_grabbing, local_sleep}
use grpc_cplugplug_example.Sdk.Laws.{held, created_count, destroyed_count, Conserves}
use grpc_cplugplug_example.Camera
use grpc_cplugplug_example.Camera.{Camera}
use grpc_cplugplug_example.Camera.Handles.{close_lem, destroy_lem}
use grpc_cplugplug_example.Device.{
  Device, Out, stop_retry, stop_with, stop_grapping, close_and_delete, close_camera, stop_and_close,
}
use grpc_cplugplug_example.Device.States.{CameraState, IsConsistent, IsClosed, device_held}

-- How often the SDK was asked to stop.
abbrev pub stop_count : List Note → ℕ
stop_count [] = 0
stop_count (requested stop_grabbing h ∷ t) = suc (stop_count t)
stop_count (_ ∷ t) = stop_count t

-- What a run of attempts, at most `most` of them, leaves in the notes.
pub record Attempts (most : ℕ) (t t' : List Note) : Type 0 where
  pub at_least_one : stop_count t < stop_count t'
  pub at_most : stop_count t' ≤ stop_count t + most
  pub same_created : (h : ℕ) → created_count h t' ≡ created_count h t
  pub same_destroyed : (h : ℕ) → destroyed_count h t' ≡ destroyed_count h t

module _ (env : Env) where
  stop_retry-Attempts :
      (left : ℕ) (c : Camera) (s : Sys env.World)
      → Attempts (suc left) s.trace (stop_retry env left c s).1.trace
  unfolding stop_retry Camera.stop_grab
  stop_retry-Attempts zero c s = record {
    at_least_one = omega arith;
    at_most = omega arith;
    same_created = λ h. refl;
    same_destroyed = λ h. refl;
  }
  stop_retry-Attempts (suc left) c s =
      let r = Camera.stop_grab env c s in
      let ih = stop_retry-Attempts left c (local_sleep env 100 r.1) in
      elim (Bool-cases (nonzero r.0 && not (eq_ℤ r.0 env.mv_e_usb_write))) [
        | inl again ↦ rw again (record {
          at_least_one = omega (arith, ih.at_least_one);
          at_most = omega (arith, ih.at_most);
          same_created = λ h. ih.same_created h;
          same_destroyed = λ h. ih.same_destroyed h;
        })
        | inr done ↦ rw done (record {
          at_least_one = omega arith;
          at_most = omega arith;
          same_created = λ h. refl;
          same_destroyed = λ h. refl;
        })
      ]

  -- The attempt behind `k` others, with `local_sleep` between any two.
  unfoldable pub attempt : Camera → ℕ → Sys env.World → ℤ × Sys env.World
  attempt c zero s = Camera.stop_grab env c s
  attempt c (suc k) s = Camera.stop_grab env c (local_sleep env 100 (attempt c k s).1)

  -- The codes that end the attempts.
  abbrev pub Ends : ℤ → Type 0
  Ends code = (code ≡ pos 0) ⊎ (code ≡ env.mv_e_usb_write)

  -- A run of attempts up to the number `k`, the first that ends them, or the last one that is left.
  pub record Tried (left : ℕ) (c : Camera) (s : Sys env.World) (r : ℤ × Sys env.World)
      : Type 0 where
    pub k : ℕ
    pub at_most : k ≤ left
    pub result : r ≡ attempt c k s
    pub before : (j : ℕ) → j < k → ¬ (Ends (attempt c j s).0)
    pub ended : Ends r.0 ⊎ (k ≡ left)

  not-Ends : (code : ℤ) → nonzero code && not (eq_ℤ code env.mv_e_usb_write) ≡ true → ¬ (Ends code)
  not-Ends code h (inl e) = cc (h, (nonzero_iff code).1 e)
  not-Ends code h (inr e) = elim (eq_ℤ-cases code env.mv_e_usb_write) [
    | inl (q, p) ↦ ground (arith, h, q)
    | inr (q, p) ↦ absurd (p e)
  ]

  code-Ends : (code : ℤ) → nonzero code && not (eq_ℤ code env.mv_e_usb_write) ≡ false → Ends code
  code-Ends code h = elim (Bool-cases (nonzero code)) [
    | inr success ↦ inl ((nonzero_iff code).0 success)
    | inl failed ↦ elim (eq_ℤ-cases code env.mv_e_usb_write) [
      | inl (q, p) ↦ inr p
      | inr (q, p) ↦ absurd (cc (h, failed, q))
    ]
  ]

  attempt-suc :
      (c : Camera) (k : ℕ) (s : Sys env.World)
      → attempt c k (local_sleep env 100 (Camera.stop_grab env c s).1) ≡ attempt c (suc k) s
  unfolding attempt
  attempt-suc c zero s = refl
  attempt-suc c (suc k) s =
      ap (λ r. Camera.stop_grab env c (local_sleep env 100 r.1)) (attempt-suc c k s)

  before_suc :
      (left : ℕ) (c : Camera) (s : Sys env.World)
      → let r = Camera.stop_grab env c s in
        let s' = local_sleep env 100 r.1 in
        ¬ (Ends r.0)
        → (t : Tried left c s' (stop_retry env left c s')) → (j : ℕ) → j < suc t.k
        → ¬ (Ends (attempt c j s).0)
  unfolding attempt
  before_suc left c s first t zero h = first
  before_suc left c s first t (suc j) h =
      subst (λ x. ¬ (Ends x.0)) (attempt-suc c j s) (t.before j (omega (arith, h)))

  stop_retry-Tried :
      (left : ℕ) (c : Camera) (s : Sys env.World) → Tried left c s (stop_retry env left c s)
  unfolding stop_retry attempt
  stop_retry-Tried zero c s = record {
    k = 0;
    at_most = omega arith;
    result = refl;
    before = λ j h. absurd (omega arith);
    ended = inr refl;
  }
  stop_retry-Tried (suc left) c s =
      let r = Camera.stop_grab env c s in
      let ih = stop_retry-Tried left c (local_sleep env 100 r.1) in
      elim (Bool-cases (nonzero r.0 && not (eq_ℤ r.0 env.mv_e_usb_write))) [
        | inl again ↦ rw again (record {
          k = suc ih.k;
          at_most = omega (arith, ih.at_most);
          result = ih.result ∙ attempt-suc c ih.k s;
          before = before_suc left c s (not-Ends r.0 again) ih;
          ended = elim ih.ended [ inl e ↦ inl e | inr e ↦ inr (ap suc e) ];
        })
        | inr done ↦ rw done (record {
          k = 0;
          at_most = omega arith;
          result = refl;
          before = λ j h. absurd (omega arith);
          ended = inl (code-Ends r.0 done);
        })
      ]

  -- What `_stop_grapping` makes of a device that grabs with the camera `c`: it goes through at most six
  -- attempts, the flag is down, and its code and the state of the system are those of its last
  -- attempt.
  pub record StopTried (d : Device) (c : Camera) (s : Sys env.World) (r : Out env) : Type 0 where
    pub tried : Tried 5 c s (r.0, r.2)
    pub attempts : Attempts 6 s.trace r.2.trace
    pub device : r.1 ≡ record d { grapping = false }

  -- `_stop_grapping` of a device that grabs and has a camera never goes through a NULL camera. It
  -- asks the SDK to stop once and then again, after `local_sleep(100)`, as long as the code is
  -- neither 0 nor MV_E_USB_WRITE, six times at most and not once more after one of these two
  -- codes; the code returned is that of the last attempt. It creates and destroys no handle, and
  -- changes nothing of the device but its flag, which is down whatever the code is.
  pub stop_grapping-StopTried :
      (d : Device) (c : Camera) (s : Sys env.World)
      → let d' = record d { camera = some c; grapping = true } in
        Returns (StopTried d' c s) (stop_grapping env d' s)
  unfolding stop_grapping stop_with
  stop_grapping-StopTried d c s = record {
    tried = stop_retry-Tried 5 c s;
    attempts = stop_retry-Attempts 5 c s;
    device = refl;
  }

  close_and_delete-Conserves :
      (c : Camera) (s : Sys env.World)
      → Conserves s.trace (held c.handle) (close_and_delete env c s).trace (held 0)
  unfolding close_and_delete
  close_and_delete-Conserves c s h n =
      let p = close_lem env c s in
      let q = destroy_lem env (Camera.close env c s).1 (Camera.close env c s).2 in
      ground (arith, p.0, p.1 h n, q h n)

  -- What `_close_camera` leaves, and what it leaves alone.
  pub record CameraClosed (d : Device) (s : Sys env.World) (r : Out env) : Type 0 where
    pub code : r.0 ≡ pos 0
    pub device : r.1 ≡ record d { camera = none; camera_open = false }
    pub conserves : Conserves s.trace (device_held d) r.2.trace (λ h. 0)

  pub close_camera-CameraClosed :
      (d : Device) (s : Sys env.World) → CameraClosed d s (close_camera env d s)
  unfolding close_camera
  close_camera-CameraClosed d s = go d.camera refl
    where
      go :
          (o : Option Camera)
          → d.camera ≡ o
          → CameraClosed (record d { camera = o }) s (close_camera env (record d { camera = o }) s)
      go none e = record { code = refl; device = refl; conserves = λ h n. refl }
      go (some c) e = record {
        code = refl;
        device = refl;
        conserves = λ h n. ground (arith, close_and_delete-Conserves c s h n);
      }

  -- `_stop_grapping` of a consistent device: the flag is down, and the handles are as they were.
  record StoppedGrapping (d : Device) (s : Sys env.World) (r : Out env) : Type 0 where
    device : r.1 ≡ record d { grapping = false }
    same_created : (h : ℕ) → created_count h r.2.trace ≡ created_count h s.trace
    same_destroyed : (h : ℕ) → destroyed_count h r.2.trace ≡ destroyed_count h s.trace

  stop_grapping-StoppedGrapping :
      (d : Device) (s : Sys env.World) (o : Option Camera) (g : Bool)
      → CameraState o d.camera_open g
      → let d' = record d { camera = o; grapping = g } in
        Returns (StoppedGrapping d' s) (stop_grapping env d' s)
  unfolding stop_grapping stop_with
  stop_grapping-StoppedGrapping d s o false v = record {
    device = refl;
    same_created = λ h. refl;
    same_destroyed = λ h. refl;
  }
  stop_grapping-StoppedGrapping d s none true v = cc (v.1)
  stop_grapping-StoppedGrapping d s (some c) true v =
      let t = stop_retry-Attempts 5 c s in
      record { device = refl; same_created = t.same_created; same_destroyed = t.same_destroyed }

  -- What `_stop_and_close` leaves.
  pub record Stopped (d : Device) (s : Sys env.World) (r : Out env) : Type 0 where
    pub code : r.0 ≡ pos 0
    pub device : r.1 ≡ record d { camera = none; camera_open = false; grapping = false }
    pub conserves : Conserves s.trace (device_held d) r.2.trace (λ h. 0)

  -- `stop_and_close` of a consistent device never goes through a NULL camera; it returns 0, makes
  -- the device closed and changes nothing else of it, and the handle that the device held is
  -- destroyed once.
  pub stop_and_close-Stopped :
      (d : Device) (s : Sys env.World)
      → IsConsistent d
      → Returns (Stopped d s) (stop_and_close env d s)
  unfolding stop_and_close
  stop_and_close-Stopped d s v =
      Returns->>= (StoppedGrapping d s) (Stopped d s) (stop_grapping env d s) _
        (stop_grapping-StoppedGrapping d s d.camera d.grapping v.state)
        λ r p.
          let q = close_camera-CameraClosed r.1 r.2 in
          record {
            code = refl;
            device = ground (arith, p.device, q.device);
            conserves = λ h n.
                ground (arith, p.device, p.same_created h, p.same_destroyed h, q.conserves h n);
          }

  pub Stopped-IsConsistent :
      (d : Device) (s : Sys env.World) (r : Out env)
      → IsConsistent d
      → Stopped d s r
      → IsConsistent r.1 × IsClosed r.1
  Stopped-IsConsistent d s r v p = (
    rw p.device (record { state = (refl, refl); cache = v.cache; size = v.size }),
    rw p.device (refl, refl, refl),
  )
