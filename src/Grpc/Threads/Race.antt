-- ===== src/Grpc/Threads/Race.antt =====
-- Two threads at one device.
use grpc_cplugplug_example.Base.{
  ℕ, ◌≡◌, ◌≢◌, refl, ◌∙◌, true, false, none, some, List, [], ◌∷◌, ◌++◌, get_elem?, set,
  get_elem?-set_ne, Result, Fault, ok, fault, state_assertion, arith, ◌&&◌, ◌>>=◌, >>=_assoc,
  Returns, Returns->>=, Returns-map,
}
use grpc_cplugplug_example.Buffer.{Buff}
use grpc_cplugplug_example.Sdk.{Env, Sys, is_device_connected, request}
use grpc_cplugplug_example.Camera
use grpc_cplugplug_example.Camera.{Camera}
use grpc_cplugplug_example.Device.{Device, stop_and_close}
use grpc_cplugplug_example.Device.Picture
use grpc_cplugplug_example.Device.Picture.{Shot}
use grpc_cplugplug_example.Device.States.{IsConsistent}
use grpc_cplugplug_example.Device.Stopping.{Stopped, stop_and_close-Stopped}
use grpc_cplugplug_example.Provider.Shared.{Object, at}
use grpc_cplugplug_example.Provider.Shared.Heap.{at-set}
use grpc_cplugplug_example.Grpc.Threads.{holding, Thread, Turned, Server, shoot, turn_of, turn, run}
use grpc_cplugplug_example.Grpc.Threads.Turns.{take_picture_closed}

>>=-fault :
    {A B : Type 0} (m : Result A) (f : A → Result B) (e : Fault)
    → Returns (λ a. f a ≡ fault e) m
    → (m >>= f) ≡ fault e
>>=-fault (ok a) f e h = h
>>=-fault (fault x) f e h = absurd h

module _ (env : Env) where
  -- A picture of a camera that is no longer connected closes the device.
  take_picture_lost :
      (d : Device) (c : Camera) (b : Buff) (s : Sys env.World)
      → IsConsistent d
      → d.camera_open ≡ true
      → d.grapping ≡ true
      → (env.call is_device_connected c.handle s.world).0 ≡ false
      → Returns (λ r. (r.1).camera ≡ none) (Picture.take_asserted env d (some c) none b s)
  unfolding Picture.take_asserted Picture.take_with Camera.is_connected
  take_picture_lost d c b s v opened grabs lost =
      let both : (d.camera_open && d.grapping) ≡ true = ground (arith, opened, grabs) in
      let s' = (request env is_device_connected c.handle s).1 in
      rw (both, lost)
        (Returns->>= (Stopped env d s') _ (stop_and_close env d s') _
          (stop_and_close-Stopped env d s' v) λ r k. rw k.device refl)

  -- The turn of a thread that is about to take a picture.
  holding_turn :
      (k : ℕ) (t : Thread) (sn : List ℕ) (b : Buff) (n : ℕ) (st : Server env)
      → t.stage ≡ holding sn b n
      → turn_of env k (some t) st ≡ (
          shoot env b n (at (st.shared).objects n) st.shared >>= λ r. ok (record {
            shared = r.1;
            threads =
                set st.threads k
                  (record { calls = t.calls; stage = r.0; answers = t.answers ++ r.2 });
          }))
  unfolding turn_of
  holding_turn k t sn b n st e =
      simp e (>>=_assoc (shoot env b n (at (st.shared).objects n) st.shared) _ _)

  abbrev LeftClosed : ℕ → Turned env → Type 0
  LeftClosed n r = (o : Object) × (at (r.1).objects n ≡ some o) × (o.device.camera ≡ none)

  -- The object's device has no camera, and the other threads are as they were.
  record Lost (k n : ℕ) (st st' : Server env) : Type 0 where
    object : Object
    there : at (st'.shared).objects n ≡ some object
    closed : object.device.camera ≡ none
    other : get_elem? st'.threads k ≡ get_elem? st.threads k

  turn-Lost :
      (i k n : ℕ) (t : Thread) (o : Object) (c : Camera) (sn : List ℕ) (b : Buff) (st : Server env)
      → k ≢ i
      → get_elem? st.threads i ≡ some t
      → t.stage ≡ holding sn b n
      → at (st.shared).objects n ≡ some o
      → IsConsistent o.device
      → o.device.camera ≡ some c
      → o.device.camera_open ≡ true
      → o.device.grapping ≡ true
      → (env.call is_device_connected c.handle ((st.shared).sys).world).0 ≡ false
      → Returns (Lost k n st) (turn env i st)
  unfolding turn shoot Picture.take_picture
  turn-Lost i k n t o c sn b st ne e h q v camera opened grabs lost =
      simp (e, holding_turn i t sn b n st h, q, camera)
        (Returns->>= (LeftClosed n) (Lost k n st)
          (Picture.take_asserted env o.device (some c) none b (st.shared).sys >>= _) _
          (Returns->>= (λ (r : Shot env). (r.1).camera ≡ none) (LeftClosed n)
            (Picture.take_asserted env o.device (some c) none b (st.shared).sys) _
            (take_picture_lost o.device c b (st.shared).sys v opened grabs lost)
            λ r gone.
              let o' : Object = record o { device = r.1 } in
              (o', at-set (st.shared).objects n n o (some o') q ∙ ground arith, gone))
          λ r (o', there, closed). record {
            object = o';
            there = there;
            closed = closed;
            other = get_elem?-set_ne st.threads i k _ ne;
          })

  -- Another thread's picture of the same device.
  turn_closed :
      (k n : ℕ) (u : Thread) (o : Object) (sn : List ℕ) (b : Buff) (st : Server env)
      → get_elem? st.threads k ≡ some u
      → u.stage ≡ holding sn b n
      → at (st.shared).objects n ≡ some o
      → o.device.camera ≡ none
      → turn env k st ≡ fault state_assertion
  unfolding turn shoot
  turn_closed k n u o sn b st e h q closed =
      simp
        (
          e,
          holding_turn k u sn b n st h,
          q,
          take_picture_closed env o.device b (st.shared).sys closed,
        )
        refl

  -- Two threads that are about to take a picture with the same consistent device, which is open and grabs: where
  -- the first of them finds the camera disconnected, the second ends the process, by the
  -- assertion of `take_picture` that there is a camera.
  pub run_race :
      (i k n : ℕ) (t u : Thread) (o : Object) (c : Camera) (sn sn' : List ℕ) (b b' : Buff)
      (st : Server env)
      → k ≢ i
      → get_elem? st.threads i ≡ some t
      → get_elem? st.threads k ≡ some u
      → t.stage ≡ holding sn b n
      → u.stage ≡ holding sn' b' n
      → at (st.shared).objects n ≡ some o
      → IsConsistent o.device
      → o.device.camera ≡ some c
      → o.device.camera_open ≡ true
      → o.device.grapping ≡ true
      → (env.call is_device_connected c.handle ((st.shared).sys).world).0 ≡ false
      → run env (i ∷ k ∷ []) st ≡ fault state_assertion
  unfolding run
  run_race i k n t u o c sn sn' b b' st ne e e' h h' q v camera opened grabs lost =
      >>=-fault (turn env i st) _ state_assertion (
        Returns-map (Lost k n st) _ (turn env i st)
          (turn-Lost i k n t o c sn b st ne e h q v camera opened grabs lost)
          λ st' l.
            rw (turn_closed k n u l.object sn' b' st' (l.other ∙ e') h' l.there l.closed) refl)
