-- ===== src/Grpc/Threads/Turns.antt =====
-- What one turn of a thread keeps, for whatever the other threads point to.
use grpc_cplugplug_example.Base.{
  ℕ, ◌+◌, ◌≡◌, refl, ap, sym, subst, ◌∙◌, ◌⊎◌, inl, inr, Option, none, some, List, Fault, false,
  fault, state_assertion, arith, Within, Returns-Within, Returns, Returns->>=, Bool-cases,
  Option-cases,
}
use grpc_cplugplug_example.Base.Int.{nonzero, nonzero_iff}
use grpc_cplugplug_example.Buffer.{Buff}
use grpc_cplugplug_example.Buffer.Valid.{IsValid}
use grpc_cplugplug_example.Sdk.{DeviceInfo, Env, Sys}
use grpc_cplugplug_example.Sdk.Laws.{Laws, Conserves}
use grpc_cplugplug_example.Camera.Forward.{enum_devices}
use grpc_cplugplug_example.Device
use grpc_cplugplug_example.Device.{Device, is_shutdown}
use grpc_cplugplug_example.Device.Picture
use grpc_cplugplug_example.Device.States.{IsReady, init-IsConsistent, init-IsClosed}
use grpc_cplugplug_example.Device.Starting.{Started, start-Started}
use grpc_cplugplug_example.Device.Converting.{Allocates}
use grpc_cplugplug_example.Provider.{destroy_device}
use grpc_cplugplug_example.Provider.Map.{lookup, insert, erase}
use grpc_cplugplug_example.Provider.Cameras.{IsReady-of_open, destroy_device_lem}
use grpc_cplugplug_example.Provider.Shared.{Object, Objects, at, share, release}
use grpc_cplugplug_example.Provider.Shared.Heap.{
  one, owners_of, objects_held, Counted, Counted-same, Kin, share-Counted, make_shared-Counted,
  release-Counted,
}
use grpc_cplugplug_example.Grpc.{image_buffer}
use grpc_cplugplug_example.Grpc.Images.{image_buffer_lem}
use grpc_cplugplug_example.Grpc.Serving.{Call, camera_metas, reset_all, image}
use grpc_cplugplug_example.Grpc.Threads.{
  Stage, idle, listing, looking, missing, opening, adding, holding, dropping, Shared, Turned,
  finish, begin, look_object, look, open_device, release_old, add_device,
}
use grpc_cplugplug_example.Grpc.Threads.Owners.{
  stage_owned, map_owned, found_owned, map_owned-erase, map_owned-insert,
}

-- The buffer of the call is valid.
abbrev pub StageBuffer : Stage → Type 0
StageBuffer idle = Unit {0}
StageBuffer (listing code) = Unit {0}
StageBuffer (looking sn b) = IsValid b
StageBuffer (missing sn b) = IsValid b
StageBuffer (opening sn b info) = IsValid b
StageBuffer (adding sn b i) = IsValid b
StageBuffer (holding sn b i) = IsValid b
StageBuffer (dropping b i) = IsValid b

abbrev IsOpen : Option Object → Type 0
IsOpen none = Unit {0}
IsOpen (some o) = is_shutdown o.device ≡ false

abbrev ReadyIn : Option Object → Type 0
ReadyIn none = Unit {0}
ReadyIn (some o) = IsReady o.device

-- `take_picture` of a device without a camera fails its first assertion.
pub take_picture_closed :
    (env : Env) (d : Device) (b : Buff) (s : Sys env.World)
    → d.camera ≡ none
    → Picture.take_picture env d none b s ≡ fault state_assertion
unfolding Picture.take_picture Picture.take_asserted
take_picture_closed env d b s e = simp e

module _ (env : Env) (laws : Laws env) (alloc : Allocates env) (E : Fault → Type 0) where
  -- The device of the object is ready, or the assertions on its state may fail.
  abbrev pub ReadyOr : Objects → ℕ → Type 0
  ReadyOr os i = (o : Object) → at os i ≡ some o → IsReady o.device ⊎ E state_assertion

  abbrev pub StageReady : Objects → Stage → Type 0
  StageReady os (adding sn b i) = ReadyOr os i
  StageReady os (holding sn b i) = ReadyOr os i
  StageReady os _ = Unit {0}

  -- `others` counts the pointers of the other threads.
  pub record Fine (others : ℕ → ℕ) (stage : Stage) (sh : Shared env) : Type 0 where
    pub counted :
        Counted (λ j. map_owned sh.cameras_list j + (stage_owned stage j + others j)) sh.objects
    pub buffer : StageBuffer stage

  -- What a turn leaves.
  pub record FineTurn (others : ℕ → ℕ) (sh : Shared env) (r : Turned env) : Type 0 where
    pub fine : Fine others r.0 r.1
    pub ready : StageReady (r.1).objects r.0
    pub conserves :
        Conserves sh.sys.trace
          (objects_held sh.objects)
          (r.1).sys.trace
          (objects_held (r.1).objects)

  ReadyOr-Kin : (os os' : Objects) (i : ℕ) → Kin os os' → ReadyOr os i → ReadyOr os' i
  ReadyOr-Kin os os' i kin ready o' e' =
      let (o, e, same) = kin i o' e' in
      elim (ready o e) [ inl r ↦ inl (subst IsReady (sym same) r) | inr allowed ↦ inr allowed ]

  -- A stage with no pointer of its own.
  pub start_call-FineTurn :
      (others : ℕ → ℕ) (c : Call) (sh : Shared env)
      → Fine others idle sh
      → Within E (FineTurn others sh) (begin env c sh)
  unfolding begin enum_devices
  start_call-FineTurn others camera_metas sh v = record {
    fine = record { counted = v.counted; buffer = tt };
    ready = tt;
    conserves = λ h n. refl;
  }
  start_call-FineTurn others reset_all sh v = record {
    fine = v;
    ready = tt;
    conserves = λ h n. refl;
  }
  start_call-FineTurn others (image q) sh v = Returns-Within E (FineTurn others sh) _ (
      Returns->>= _ (FineTurn others sh) (image_buffer env sh.sys) _
        (image_buffer_lem env alloc sh.sys)
        λ b k. record {
          fine = record { counted = v.counted; buffer = k.0 };
          ready = tt;
          conserves = λ h n. refl;
        })

  pub look-FineTurn :
      (others : ℕ → ℕ) (sn : List ℕ) (b : Buff) (o : Option ℕ) (sh : Shared env)
      → Fine others (looking sn b) sh
      → lookup sn sh.cameras_list ≡ o
      → Returns (FineTurn others sh) (look env sn b o sh)
  unfolding look
  look-FineTurn others sn b none sh v e = record {
    fine = record { counted = v.counted; buffer = v.buffer };
    ready = tt;
    conserves = λ h n. refl;
  }
  look-FineTurn others sn b (some i) sh v e =
      let c : ℕ → ℕ = λ j. map_owned sh.cameras_list j + (0 + others j) in
      let one_less : (j : ℕ)
          → map_owned (erase sn sh.cameras_list) j + one i j ≡ map_owned sh.cameras_list j =
        λ j.
          ap (λ x. map_owned (erase sn sh.cameras_list) j + found_owned x j) (sym e)
          ∙ map_owned-erase sn sh.cameras_list j in
      elim (Option-cases (at sh.objects i)) [
        | inl q ↦ absurd (ground (arith, v.counted.counted i, ap owners_of q, one_less i))
        | inr (o, q) ↦ elim (Bool-cases (is_shutdown o.device)) [
          | inl gone ↦
              rw (q, look_object, gone)
                (Returns->>= _ (FineTurn others sh) (release env sh.objects i sh.sys) _
                  (release-Counted env c
                    (λ j. map_owned (erase sn sh.cameras_list) j + (0 + others j)) sh.objects i
                    sh.sys v.counted (λ j. omega (arith, one_less j)))
                  λ r k. record {
                    fine = record { counted = k.0; buffer = v.buffer };
                    ready = tt;
                    conserves = k.2;
                  })
          | inr here ↦
              rw (q, look_object, here)
                (Returns->>= _ (FineTurn others sh) (share sh.objects i) _
                  (share-Counted c sh.objects i v.counted (ground (arith, one_less i)))
                  λ os k. record {
                    fine = record {
                      counted = Counted-same _ _ os k.0 (λ j. omega arith);
                      buffer = v.buffer;
                    };
                    ready = ReadyOr-Kin sh.objects os i k.1 λ o' q'. inl (
                        IsReady-of_open o'.device (v.counted.fit i o' q').1
                          (subst IsOpen (sym q ∙ q') here));
                    conserves = λ h n. omega (arith, k.2 h);
                  })
        ]
      ]

  pub open_device-FineTurn :
      (others : ℕ → ℕ) (sn : List ℕ) (b : Buff) (info : DeviceInfo) (sh : Shared env)
      → Fine others (opening sn b info) sh
      → Returns (FineTurn others sh) (open_device env sn b info sh)
  unfolding open_device finish
  open_device-FineTurn others sn b info sh v =
      Returns->>= (Started env laws (Device.init env) sh.sys) (FineTurn others sh)
        (Device.start env (Device.init env) info sh.sys) _
        (start-Started env laws (Device.init env) info sh.sys (init-IsConsistent env)
          (init-IsClosed env))
        λ r k. elim k.outcome [
          | inl (z, ready) ↦
              let c : ℕ → ℕ = λ j. map_owned sh.cameras_list j + (0 + others j) in
              let m = make_shared-Counted c sh.objects r.1 v.counted (k.consistent, inl ready) in
              rw ((nonzero_iff r.0).1 z) (record {
                fine = record {
                  counted = Counted-same _ _ _ m.0 (λ j. omega arith);
                  buffer = v.buffer;
                };
                ready = λ o e. inl (subst ReadyIn (sym m.1 ∙ e) ready);
                conserves = λ h n. omega (arith, k.conserves h n, m.2 h);
              })
          | inr (failed, closed) ↦ elim (Bool-cases (nonzero r.0)) [
            | inr zero' ↦ absurd (failed ((nonzero_iff r.0).0 zero'))
            | inl test ↦ rw test (
                Returns->>= _ (FineTurn others sh) (destroy_device env r.1 r.2) _
                  (destroy_device_lem env r.1 r.2 k.consistent)
                  λ s' d. record {
                    fine = record { counted = v.counted; buffer = tt };
                    ready = tt;
                    conserves = λ h n. omega (arith, d h n, k.conserves h n);
                  })
          ]
        ]

  -- The old pointer of the map ends, if there was one.
  release_old-Counted :
      (c c' : ℕ → ℕ) (o : Option ℕ) (os : Objects) (s : Sys env.World)
      → Counted c os
      → ((j : ℕ) → c j ≡ found_owned o j + c' j)
      → Returns
          (λ r.
            Counted c' r.0
            × Kin os r.0
            × Conserves s.trace (objects_held os) r.1.trace (objects_held r.0))
          (release_old env o os s)
  unfolding release_old
  release_old-Counted c c' none os s v less =
      (Counted-same c c' os v (λ j. omega (arith, less j)), λ j o' e. (o', e, refl), λ h n. refl)
  release_old-Counted c c' (some i) os s v less = release-Counted env c c' os i s v less

  pub add_device-FineTurn :
      (others : ℕ → ℕ) (sn : List ℕ) (b : Buff) (i : ℕ) (sh : Shared env)
      → Fine others (adding sn b i) sh
      → ReadyOr sh.objects i
      → Returns (FineTurn others sh) (add_device env sn b i sh)
  unfolding add_device
  add_device-FineTurn others sn b i sh v ready =
      let m = sh.cameras_list in
      let c : ℕ → ℕ = λ j. map_owned m j + (one i j + others j) in
      let c' : ℕ → ℕ = λ j. map_owned (insert sn i m) j + (one i j + others j) in
      Returns->>= _ (FineTurn others sh) (share sh.objects i) _
        (share-Counted c sh.objects i v.counted (ground arith))
        λ os k.
          Returns->>= _ (FineTurn others sh) (release_old env (lookup sn m) os sh.sys) _
            (release_old-Counted (λ j. one i j + c j) c' (lookup sn m) os sh.sys k.0
              (λ j. omega (arith, map_owned-insert sn i m j)))
            λ r l. record {
              fine = record { counted = l.0; buffer = v.buffer };
              ready = ReadyOr-Kin os r.0 i l.1 (ReadyOr-Kin sh.objects os i k.1 ready);
              conserves = λ h n. omega (arith, l.2 h n, k.2 h);
            }
