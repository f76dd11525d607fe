-- ===== src/Device/Taking.antt =====
-- `take_picture` of a device that is ready.
use grpc_cplugplug_example.Base.{
  ℕ, ◌≤◌, ◌≡◌, ◌≢◌, refl, ap, ◌∙◌, ◌⊎◌, inl, inr, true, ◌&&◌, Option, none, some, length, ok, arith,
  Returns-Excused, Excused, Excused->>=, Excused-map, ◌>>=◌, Bool-cases,
}
use grpc_cplugplug_example.Base.Int.{ℤ, pos, negsuc, nonzero, eq_ℤ, to_uint32}
use grpc_cplugplug_example.Buffer
use grpc_cplugplug_example.Buffer.{Buff}
use grpc_cplugplug_example.Buffer.Valid.{IsValid}
use grpc_cplugplug_example.Sdk.{FrameInfo, Env, Sys, get_sys_time_ms}
use grpc_cplugplug_example.Sdk.Laws.{Laws, Conserves}
use grpc_cplugplug_example.Camera
use grpc_cplugplug_example.Camera.{Camera}
use grpc_cplugplug_example.Device.{Device, stop_and_close}
use grpc_cplugplug_example.Device.Picture.{
  ImageParameter, record_time, fill, prepare, Shot, no_frame, framed, take_connected, take_with,
  take_asserted, take_picture,
}
use grpc_cplugplug_example.Device.States.{IsConsistent, IsClosed, IsReady, camera_held, device_held}
use grpc_cplugplug_example.Device.Stopping.{Stopped, stop_and_close-Stopped, Stopped-IsConsistent}
use grpc_cplugplug_example.Device.Starting.{SameHandles}
use grpc_cplugplug_example.Device.Converting.{
  size_round, fill_lem, record_time_lem, Allocates, prepare_lem, Shoots, to_jpg_lem,
}

module _ (env : Env) (laws : Laws env) (alloc : Allocates env) where
  -- What a picture leaves.
  pub record Taken (d : Device) (b : Buff) (s : Sys env.World) (r : Shot env) : Type 0 where
    pub consistent : IsConsistent r.1
    pub state : IsReady r.1 ⊎ IsClosed r.1
    pub buffer : IsValid r.2
    pub no_data : (r.0 ≡ pos 0) ⊎ (r.2.data_size ≤ b.data_size)
    pub conserves : Conserves s.trace (device_held d) r.3.trace (device_held r.1)

  shot-Taken :
      (d e : Device) (b : Buff) (s s' : Sys env.World) (r : Shot env)
      → IsConsistent d
      → IsReady d
      → e.camera ≡ d.camera
      → SameHandles s.trace s'.trace
      → Shoots env d b s' r
      → Taken e b s r
  shot-Taken d e b s s' r v ready same before (valid, (c, o, g, cache, size), after, empty) =
      record {
        consistent = record {
          state = rw (c, o, g) (v.state);
          cache = rw cache (v.cache);
          size = rw size (v.size);
        };
        state = inl (rw c ready.0, o ∙ ready.1, g ∙ ready.2);
        buffer = valid;
        no_data = empty;
        conserves = λ h n.
            omega (
              arith,
              before h,
              after h,
              ap (λ x. camera_held x h) c,
              ap (λ x. camera_held x h) same,
            );
      }

  stop-Taken :
      (d e : Device) (b : Buff) (s s' : Sys env.World) (ret : ℤ)
      → IsConsistent d
      → IsValid b
      → e.camera ≡ d.camera
      → SameHandles s.trace s'.trace
      → Excused (Taken e b s) (stop_and_close env d s' >>= λ q. ok (ret, q.1, b, q.2))
  stop-Taken d e b s s' ret v valid same before =
      Excused->>= (Stopped env d s') _ (stop_and_close env d s') _
        (Returns-Excused _ _ (stop_and_close env d s') (stop_and_close-Stopped env d s' v)
          (λ x y. y))
        λ q p.
          let after = Stopped-IsConsistent env d s' q v p in
          record {
            consistent = after.0;
            state = inr after.1;
            buffer = valid;
            no_data = inr (omega arith);
            conserves = λ h n. omega (
              arith,
              before h,
              p.conserves h n,
              ap (λ x. device_held x h) p.device,
              ap (λ x. camera_held x h) same,
            );
          }

  framed_lem :
      (d e : Device) (c : Camera) (ret : ℤ) (frame : FrameInfo) (t1 : ℕ)
      (param : Option ImageParameter) (b : Buff) (s0 s : Sys env.World)
      → IsConsistent d
      → IsReady d
      → IsValid b
      → e.camera ≡ d.camera
      → SameHandles s0.trace s.trace
      → Excused (Taken e b s0) (framed env d c ret frame t1 param b s)
  unfolding framed no_frame
  framed_lem d e c ret frame t1 param b s0 s v ready valid same before =
      Excused->>= _ _ (record_time d.take_times t1 (env.now s.world).0) _
        (record_time_lem d.take_times t1 (env.now s.world).0)
        λ times u.
          let d' = record d { take_times = times } in
          let v' : IsConsistent d' = record { state = v.state; cache = v.cache; size = v.size } in
          let s' = (get_sys_time_ms env s).1 in
          elim (Bool-cases (nonzero ret)) [
            | inr fine ↦ rw fine (
                Excused-map (Shoots env d' b s') (Taken e b s0) _
                  (to_jpg_lem env laws alloc d' c (Buffer.bytes (Buffer.get_buff d.cache_data))
                    frame param b s' v.size valid)
                  λ r p. shot-Taken d' e b s0 s' r v' ready same (λ h. before h) p)
            | inl failed ↦ elim (Bool-cases (eq_ℤ ret env.mv_e_nodata)) [
              | inl gone ↦
                  rw (failed, gone) (stop-Taken d' e b s0 s' ret v' valid same (λ h. before h))
              | inr other ↦
                  rw (failed, other)
                    (record {
                      consistent = v';
                      state = inl ready;
                      buffer = valid;
                      no_data = inr (omega arith);
                      conserves = λ h n. omega (arith, before h, ap (λ x. camera_held x h) same);
                    })
            ]
          ]

  take_connected_lem :
      (d : Device) (c : Camera) (param : Option ImageParameter) (b : Buff) (s0 s : Sys env.World)
      → IsConsistent d
      → IsReady d
      → IsValid b
      → SameHandles s0.trace s.trace
      → Excused (Taken d b s0) (take_connected env d c param b s)
  unfolding take_connected Camera.one_frame
  take_connected_lem d c param b s0 s v ready valid before =
      let s1 = (get_sys_time_ms env s).1 in
      Excused->>= _ _ (prepare env d d.cache_data s1) _
        (Returns-Excused _ _ (prepare env d d.cache_data s1)
          (prepare_lem env d d.cache_data s1 alloc v.size v.cache) (λ r p. p))
        λ b1 p.
          let size = to_uint32 (Buffer.get_buff_size b1) in
          let r = Camera.one_frame env size d.wait_timeout c s1 in
          let fits : length r.0.2 ≤ b1.buff_max_size =
            omega
              (arith, laws.frame_fits size d.wait_timeout c.handle s1.world, size_round b1 p.0) in
          Excused->>= _ _ (fill b1 r.0.2) _
            (Returns-Excused _ _ (fill b1 r.0.2) (fill_lem b1 r.0.2 p.0 fits) (λ x y. y))
            λ b2 f.
              let d' = record d { cache_data = b2 } in
              framed_lem d' d c r.0.0 r.0.1 (get_sys_time_ms env s).0 param b s0 r.1
                (record { state = v.state; cache = f.0; size = v.size }) ready valid refl
                (λ h. before h)

  take_with_lem :
      (d : Device) (c : Camera) (param : Option ImageParameter) (b : Buff) (s : Sys env.World)
      → IsConsistent d
      → IsReady d
      → IsValid b
      → Excused (Taken d b s) (take_with env d c param b s)
  unfolding take_with Camera.is_connected
  take_with_lem d c param b s v ready valid =
      let s' = (Camera.is_connected env c s).1 in
      elim (Bool-cases (Camera.is_connected env c s).0) [
        | inl there ↦
            rw there (take_connected_lem d c param b s s' v ready valid (λ h. (refl, refl)))
        | inr lost ↦ rw lost (stop-Taken d d b s s' (negsuc 0) v valid refl (λ h. (refl, refl)))
      ]

  take_asserted_lem :
      (d : Device) (o : Option Camera) (param : Option ImageParameter) (b : Buff)
      (s : Sys env.World)
      → IsConsistent d
      → IsReady d
      → IsValid b
      → o ≢ none
      → Excused (Taken d b s) (take_asserted env d o param b s)
  unfolding take_asserted
  take_asserted_lem d none param b s v ready valid has = absurd (has refl)
  take_asserted_lem d (some c) param b s v ready valid has =
      let both : (d.camera_open && d.grapping) ≡ true = ground (arith, ready.1) in
      rw both (take_with_lem d c param b s v ready valid)

  -- With an SDK that behaves as documented and an allocator that gives blocks of the size asked
  -- for, of a consistent device that is ready and into a valid buffer: `take_picture` fails none
  -- of its three assertions and touches no memory outside of its buffers; it ends the process at
  -- most by an image of the full size of the buffer or by a counter that has come round. Where it
  -- returns, the device is ready or closed and consistent, the buffer is valid, with no more data
  -- than before if the code is an error, and each handle is destroyed or still held.
  pub take_picture-Taken :
      (d : Device) (param : Option ImageParameter) (b : Buff) (s : Sys env.World)
      → IsConsistent d
      → IsReady d
      → IsValid b
      → Excused (Taken d b s) (take_picture env d param b s)
  unfolding take_picture
  take_picture-Taken d param b s v ready valid =
      take_asserted_lem d d.camera param b s v ready valid ready.0
