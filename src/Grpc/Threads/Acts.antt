-- ===== src/Grpc/Threads/Acts.antt =====
-- The turns of a thread, all of its stages together.
use grpc_cplugplug_example.Base.{
  ℕ, ◌+◌, refl, ap, ◌⊎◌, inl, inr, Option, none, some, List, [], ◌∷◌, Fault, ok, state_assertion,
  size_assertion, zero_division, arith, ◌>>=◌, Within, Within->>=, Returns-Within, Excused-Within,
  Returns, Returns->>=, Option-cases,
}
use grpc_cplugplug_example.Buffer.{Buff}
use grpc_cplugplug_example.Buffer.Valid.{IsValid}
use grpc_cplugplug_example.Text.{c_str}
use grpc_cplugplug_example.Sdk.{DeviceInfo, Env, Sys}
use grpc_cplugplug_example.Sdk.Laws.{Laws}
use grpc_cplugplug_example.Device.Picture
use grpc_cplugplug_example.Device.States.{IsReady}
use grpc_cplugplug_example.Device.Converting.{Allocates}
use grpc_cplugplug_example.Device.Taking.{Taken, take_picture-Taken}
use grpc_cplugplug_example.Provider.{find_info}
use grpc_cplugplug_example.Provider.Map.{lookup}
use grpc_cplugplug_example.Provider.Cameras.{IsFit}
use grpc_cplugplug_example.Provider.Shared.{Object, at, release}
use grpc_cplugplug_example.Provider.Shared.Heap.{one, owners_of, update-Counted, release-Counted}
use grpc_cplugplug_example.Grpc.Serving.{Call}
use grpc_cplugplug_example.Grpc.Threads.{
  Stage, idle, listing, looking, missing, opening, adding, holding, dropping, Shared, Turned,
  finish, search_info, shoot, go_on, next_call, act,
}
use grpc_cplugplug_example.Grpc.Threads.Owners.{map_owned}
use grpc_cplugplug_example.Grpc.Threads.Turns.{
  take_picture_closed, ReadyOr, StageReady, Fine, FineTurn, start_call-FineTurn, look-FineTurn,
  open_device-FineTurn, add_device-FineTurn,
}

module _ (env : Env) (laws : Laws env) (alloc : Allocates env) (E : Fault → Type 0)
    (size : E size_assertion) (counter : E zero_division) where
  -- A picture of the object's device, which may have been closed.
  shoot_device :
      (o : Object) (b : Buff) (s : Sys env.World) (v : IsFit o.device)
      → IsValid b
      → IsReady o.device ⊎ E state_assertion
      → Within E (Taken env laws alloc o.device b s) (Picture.take_picture env o.device none b s)
  shoot_device o b s (consistent, inl ready) valid either =
      Excused-Within E (Taken env laws alloc o.device b s)
        (Picture.take_picture env o.device none b s) size counter
        (take_picture-Taken env laws alloc o.device none b s consistent ready valid)
  shoot_device o b s (consistent, inr closed) valid (inl ready) = absurd (ready.0 closed.0)
  shoot_device o b s (consistent, inr closed) valid (inr allowed) =
      rw (take_picture_closed env o.device b s closed.0) allowed

  shoot-FineTurn :
      (others : ℕ → ℕ) (sn : List ℕ) (b : Buff) (i : ℕ) (sh : Shared env)
      → Fine env laws alloc E others (holding sn b i) sh
      → ReadyOr env laws alloc E sh.objects i
      → Within E (FineTurn env laws alloc E others sh) (shoot env b i (at sh.objects i) sh)
  unfolding shoot
  shoot-FineTurn others sn b i sh v ready = elim (Option-cases (at sh.objects i)) [
    | inl e ↦ absurd (ground (arith, v.counted.counted i, ap owners_of e))
    | inr (o, e) ↦ rw e (
        Within->>= E (Taken env laws alloc o.device b sh.sys) (FineTurn env laws alloc E others sh)
          (Picture.take_picture env o.device none b sh.sys) _
          (shoot_device o b sh.sys (v.counted.fit i o e) v.buffer (ready o e))
          λ r k.
            let c : ℕ → ℕ = λ j. map_owned sh.cameras_list j + (one i j + others j) in
            let u = update-Counted c sh.objects i o r.1 v.counted e (k.consistent, k.state) in
            record {
              fine = record { counted = u.0; buffer = k.buffer };
              ready = tt;
              conserves = λ h n. omega (arith, k.conserves h n, u.1 h);
            })
  ]

  drop-FineTurn :
      (others : ℕ → ℕ) (b : Buff) (i : ℕ) (sh : Shared env)
      → Fine env laws alloc E others (dropping b i) sh
      → Returns (FineTurn env laws alloc E others sh) (go_on env (dropping b i) sh)
  unfolding go_on finish
  drop-FineTurn others b i sh v =
      let m = sh.cameras_list in
      Returns->>= _ (FineTurn env laws alloc E others sh) (release env sh.objects i sh.sys) _
        (release-Counted env (λ j. map_owned m j + (one i j + others j))
          (λ j. map_owned m j + (0 + others j)) sh.objects i sh.sys v.counted (λ j. omega arith))
        λ r k. record { fine = record { counted = k.0; buffer = tt }; ready = tt; conserves = k.2 }

  search_info-FineTurn :
      (others : ℕ → ℕ) (sn : List ℕ) (b : Buff) (o : Option DeviceInfo) (sh : Shared env)
      → Fine env laws alloc E others (missing sn b) sh
      → FineTurn env laws alloc E others sh (search_info env sn b o sh)
  unfolding search_info finish
  search_info-FineTurn others sn b none sh v = record {
    fine = record { counted = v.counted; buffer = tt };
    ready = tt;
    conserves = λ h n. refl;
  }
  search_info-FineTurn others sn b (some info) sh v = record {
    fine = record { counted = v.counted; buffer = v.buffer };
    ready = tt;
    conserves = λ h n. refl;
  }

  go_on-FineTurn :
      (others : ℕ → ℕ) (stage : Stage) (sh : Shared env)
      → Fine env laws alloc E others stage sh
      → StageReady env laws alloc E sh.objects stage
      → Within E (FineTurn env laws alloc E others sh) (go_on env stage sh)
  unfolding go_on
  go_on-FineTurn others idle sh v ready = record { fine = v; ready = tt; conserves = λ h n. refl }
  go_on-FineTurn others (listing code) sh v ready = record {
    fine = record { counted = v.counted; buffer = tt };
    ready = tt;
    conserves = λ h n. refl;
  }
  go_on-FineTurn others (looking sn b) sh v ready =
      Returns-Within E (FineTurn env laws alloc E others sh) _
        (look-FineTurn env laws alloc E others sn b (lookup sn sh.cameras_list) sh v refl)
  go_on-FineTurn others (missing sn b) sh v ready =
      search_info-FineTurn others sn b (find_info env sh.camera_info_list (c_str sn)) sh v
  go_on-FineTurn others (opening sn b info) sh v ready =
      Returns-Within E (FineTurn env laws alloc E others sh) _
        (open_device-FineTurn env laws alloc E others sn b info sh v)
  go_on-FineTurn others (adding sn b i) sh v ready =
      Returns-Within E (FineTurn env laws alloc E others sh) _
        (add_device-FineTurn env laws alloc E others sn b i sh v ready)
  go_on-FineTurn others (holding sn b i) sh v ready = shoot-FineTurn others sn b i sh v ready
  go_on-FineTurn others (dropping b i) sh v ready =
      Returns-Within E (FineTurn env laws alloc E others sh) _ (drop-FineTurn others b i sh v)

  next_call-FineTurn :
      (others : ℕ → ℕ) (cs : List Call) (sh : Shared env)
      → Fine env laws alloc E others idle sh
      → Within E (λ r. FineTurn env laws alloc E others sh r.1) (next_call env cs sh)
  unfolding next_call
  next_call-FineTurn others [] sh v = record { fine = v; ready = tt; conserves = λ h n. refl }
  next_call-FineTurn others (c ∷ cs) sh v =
      Within->>= E (FineTurn env laws alloc E others sh) _ _ _
        (start_call-FineTurn env laws alloc E others c sh v) λ r k. k

  in_call :
      (others : ℕ → ℕ) (cs : List Call) (stage : Stage) (sh : Shared env)
      → Fine env laws alloc E others stage sh
      → StageReady env laws alloc E sh.objects stage
      → Within E
          (λ (r : List Call × Turned env). FineTurn env laws alloc E others sh r.1)
          (go_on env stage sh >>= λ r. ok (cs, r))
  in_call others cs stage sh v ready =
      Within->>= E (FineTurn env laws alloc E others sh)
        (λ (r : List Call × Turned env). FineTurn env laws alloc E others sh r.1)
        (go_on env stage sh) (λ r. ok (cs, r)) (go_on-FineTurn others stage sh v ready) λ r k. k

  -- A turn meets no fault but those that `E` allows, and keeps what is fine about the thread and the
  -- shared state.
  pub act-FineTurn :
      (others : ℕ → ℕ) (cs : List Call) (stage : Stage) (sh : Shared env)
      → Fine env laws alloc E others stage sh
      → StageReady env laws alloc E sh.objects stage
      → Within E (λ r. FineTurn env laws alloc E others sh r.1) (act env cs stage sh)
  unfolding act
  act-FineTurn others cs idle sh v ready = next_call-FineTurn others cs sh v
  act-FineTurn others cs (listing code) sh v ready = in_call others cs (listing code) sh v ready
  act-FineTurn others cs (looking sn b) sh v ready = in_call others cs (looking sn b) sh v ready
  act-FineTurn others cs (missing sn b) sh v ready = in_call others cs (missing sn b) sh v ready
  act-FineTurn others cs (opening sn b i) sh v ready = in_call others cs (opening sn b i) sh v ready
  act-FineTurn others cs (adding sn b i) sh v ready = in_call others cs (adding sn b i) sh v ready
  act-FineTurn others cs (holding sn b i) sh v ready = in_call others cs (holding sn b i) sh v ready
  act-FineTurn others cs (dropping b i) sh v ready = in_call others cs (dropping b i) sh v ready
