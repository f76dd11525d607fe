-- ===== src/Provider/Cameras.antt =====
-- The map of open cameras: what every entry satisfies, and what a picture makes of it.
use grpc_cplugplug_example.Base.{
  ℕ, ◌+◌, ◌≤◌, ◌≡◌, ◌≢◌, refl, ap, subst, ◌⊎◌, inl, inr, false, Option, none, some, List, arith,
  Returns, Returns->>=, Returns-map, Returns-Excused, Excused, Excused->>=, Bool-cases,
}
use grpc_cplugplug_example.Base.Int.{ℤ, pos, nonzero, nonzero_iff}
use grpc_cplugplug_example.Buffer.{Buff}
use grpc_cplugplug_example.Buffer.Valid.{IsValid}
use grpc_cplugplug_example.Text.{to_upper}
use grpc_cplugplug_example.Sdk.{DeviceInfo, Env, Sys}
use grpc_cplugplug_example.Sdk.Laws.{Laws, created_count, destroyed_count, Conserves}
use grpc_cplugplug_example.Device
use grpc_cplugplug_example.Device.{Device, is_shutdown}
use grpc_cplugplug_example.Device.Picture
use grpc_cplugplug_example.Device.Picture.{ImageParameter}
use grpc_cplugplug_example.Device.States.{
  IsConsistent, IsReady, IsClosed, device_held, init-IsConsistent, init-IsClosed,
}
use grpc_cplugplug_example.Device.Stopping.{stop_and_close-Stopped}
use grpc_cplugplug_example.Device.Starting.{Started, start-Started}
use grpc_cplugplug_example.Device.Converting.{Allocates}
use grpc_cplugplug_example.Device.Taking.{Taken, take_picture-Taken}
use grpc_cplugplug_example.Provider.Map.{
  text_eq_iff, lookup, AllDevices, OfFound, map_held, found_held, lookup-AllDevices,
  erase-AllDevices, insert-AllDevices, map_held-erase, map_held-insert, lookup-insert,
}
use grpc_cplugplug_example.Provider.{
  Provider, Shot, destroy_device, found, find_camera_device_by_sn, replaced, add_camera_device,
  started, create_device, or_create, find_camera_info_by_sn, find_or_create_camera_device,
  take_found, take_picture,
}

-- A device of the map is ready for pictures or closed.
abbrev pub IsFit : Device → Type 0
IsFit d = IsConsistent d × (IsReady d ⊎ IsClosed d)

abbrev pub Inv : Provider → Type 0
Inv p = AllDevices IsFit p.cameras_list

-- A device that is given back is ready, and it is the one that the map has under the key.
abbrev pub ReadyAt : List ℕ → Provider → Option Device → Type 0
ReadyAt sn q none = Unit {0}
ReadyAt sn q (some d) = IsConsistent d × IsReady d × (lookup sn q.cameras_list ≡ some d)

pub IsReady-of_open : (d : Device) → IsReady d ⊎ IsClosed d → is_shutdown d ≡ false → IsReady d
unfolding is_shutdown
IsReady-of_open d (inl ready) h = ready
IsReady-of_open d (inr closed) h = absurd (ground (arith, closed.0))

module _ (env : Env) where
  -- What a search leaves: the map is fit, what it gives is ready, and the handles are conserved.
  pub record Found (sn : List ℕ) (p : Provider) (s : Sys env.World)
      (r : Option Device × Provider × Sys env.World) : Type 0 where
    pub inv : Inv r.1
    pub ready : ReadyAt sn r.1 r.0
    pub conserves :
        Conserves s.trace (map_held p.cameras_list) r.2.trace (map_held (r.1).cameras_list)

  pub destroy_device_lem :
      (d : Device) (s : Sys env.World)
      → IsConsistent d
      → Returns (λ s'. Conserves s.trace (device_held d) s'.trace (λ h. 0)) (destroy_device env d s)
  unfolding destroy_device
  destroy_device_lem d s v =
      Returns->>= _ _ (Device.stop_and_close env d s) _ (stop_and_close-Stopped env d s v)
        λ r p. p.conserves

  found-Found :
      (p : Provider) (sn : List ℕ) (o : Option Device) (s : Sys env.World)
      → Inv p
      → lookup sn p.cameras_list ≡ o
      → Returns (Found sn p s) (found env p sn o s)
  unfolding found
  found-Found p sn none s v e = record { inv = v; ready = tt; conserves = λ h n. refl }
  found-Found p sn (some d) s v e =
      let fit : IsFit d = subst (OfFound IsFit) e (lookup-AllDevices IsFit sn p.cameras_list v) in
      elim (Bool-cases (is_shutdown d)) [
        | inl gone ↦ rw gone (
            Returns->>= _ _ (destroy_device env d s) _ (destroy_device_lem d s fit.0) λ s' c.
              record {
                inv = erase-AllDevices IsFit sn p.cameras_list v;
                ready = tt;
                conserves = λ h n.
                    omega (
                      arith,
                      c h n,
                      map_held-erase sn p.cameras_list h,
                      ap (λ x. found_held x h) e,
                    );
              })
        | inr here ↦ rw here (record {
          inv = v;
          ready = (fit.0, IsReady-of_open d fit.1 here, e);
          conserves = λ h n. refl;
        })
      ]

  replaced_lem :
      (o : Option Device) (s : Sys env.World)
      → OfFound IsFit o
      → Returns (λ s'. Conserves s.trace (found_held o) s'.trace (λ h. 0)) (replaced env o s)
  unfolding replaced
  replaced_lem none s v = λ h n. refl
  replaced_lem (some d) s v = destroy_device_lem d s v.0

  add_camera_device_lem :
      (p : Provider) (sn : List ℕ) (d : Device) (s : Sys env.World)
      → Inv p
      → IsConsistent d
      → IsReady d
      → Returns
          (λ q.
            Inv q.0
            × (lookup sn (q.0).cameras_list ≡ some d)
            × ((h : ℕ)
                → h ≢ 0
                → created_count h q.1.trace
                    + (destroyed_count h s.trace + (map_held p.cameras_list h + device_held d h))
                  ≡ created_count h s.trace
                    + (destroyed_count h q.1.trace + map_held (q.0).cameras_list h)))
          (add_camera_device env p sn d s)
  unfolding add_camera_device
  add_camera_device_lem p sn d s v c ready =
      Returns->>= _ _ (replaced env (lookup sn p.cameras_list) s) _
        (replaced_lem (lookup sn p.cameras_list) s (lookup-AllDevices IsFit sn p.cameras_list v))
        λ s' k. (
          insert-AllDevices IsFit sn d p.cameras_list (c, inl ready) v,
          rw (lookup-insert sn sn d p.cameras_list, (text_eq_iff sn sn).1 refl) refl,
          λ h n. omega (arith, k h n, map_held-insert sn d p.cameras_list h),
        )

  module _ (laws : Laws env) where
    started-Found :
        (p : Provider) (sn : List ℕ) (s : Sys env.World) (r : ℤ × Device × Sys env.World)
        → Inv p
        → Started env laws (Device.init env) s r
        → Returns (Found sn p s) (started env p sn r)
    unfolding started
    started-Found p sn s r v k = elim k.outcome [
      | inl (z, ready) ↦ rw ((nonzero_iff r.0).1 z) (
          Returns->>= _ _ (add_camera_device env p sn r.1 r.2) _
            (add_camera_device_lem p sn r.1 r.2 v k.consistent ready)
            λ q a. record {
              inv = a.0;
              ready = (k.consistent, ready, a.1);
              conserves = λ h n. omega (arith, a.2 h n, k.conserves h n);
            })
      | inr (failed, _) ↦ elim (Bool-cases (nonzero r.0)) [
        | inr zero' ↦ absurd (failed ((nonzero_iff r.0).0 zero'))
        | inl test ↦ rw test (
            Returns->>= _ _ (destroy_device env r.1 r.2) _ (destroy_device_lem r.1 r.2 k.consistent)
              λ s' c. record {
                inv = v;
                ready = tt;
                conserves = λ h n. omega (arith, c h n, k.conserves h n);
              })
      ]
    ]

    create_device-Found :
        (p : Provider) (sn : List ℕ) (o : Option DeviceInfo) (s : Sys env.World)
        → Inv p
        → Returns (Found sn p s) (create_device env p sn o s)
    unfolding create_device
    create_device-Found p sn none s v = record { inv = v; ready = tt; conserves = λ h n. refl }
    create_device-Found p sn (some info) s v =
        Returns->>= _ _ (Device.start env (Device.init env) info s) _
          (start-Started env laws (Device.init env) info s (init-IsConsistent env)
            (init-IsClosed env))
          λ r k. started-Found p sn s r v k

    or_create-Found :
        (sn : List ℕ) (p : Provider) (s : Sys env.World)
        (r : Option Device × Provider × Sys env.World)
        → Found sn p s r
        → Returns (Found sn p s) (or_create env sn r)
    unfolding or_create
    or_create-Found sn p s (some d, q, t) k = k
    or_create-Found sn p s (none, q, t) k =
        Returns-map (Found sn q t) (Found sn p s) _
          (create_device-Found q sn (find_camera_info_by_sn env q sn) t k.inv)
          λ r j. record {
            inv = j.inv;
            ready = j.ready;
            conserves = λ h n. omega (arith, j.conserves h n, k.conserves h n);
          }

    -- With an SDK that behaves as documented, and from a provider whose devices are all ready or
    -- closed, `find_or_create_camera_device` never faults. A device that it gives is ready for
    -- pictures and is the one in the map under the upper-case serial number; every device of the
    -- map stays ready or closed; and every handle created is destroyed again or held by a device
    -- of the map.
    pub find_or_create-Found :
        (p : Provider) (sn : List ℕ) (s : Sys env.World)
        → Inv p
        → Returns (Found (to_upper sn) p s) (find_or_create_camera_device env p sn s)
    unfolding find_or_create_camera_device find_camera_device_by_sn
    find_or_create-Found p sn s v =
        Returns->>= _ _ (find_camera_device_by_sn env p (to_upper sn) s) _
          (found-Found p (to_upper sn) (lookup (to_upper sn) p.cameras_list) s v refl)
          λ r k. or_create-Found (to_upper sn) p s r k

    -- What a picture leaves.
    pub record PictureTaken (p : Provider) (b : Buff) (s : Sys env.World) (r : Shot env)
        : Type 0 where
      pub inv : Inv r.1
      pub buffer : IsValid r.2
      pub no_data : (r.0 ≡ pos 0) ⊎ (r.2.data_size ≤ b.data_size)
      pub conserves :
          Conserves s.trace (map_held p.cameras_list) r.3.trace (map_held (r.1).cameras_list)

    take_found-PictureTaken :
        (sn : List ℕ) (param : Option ImageParameter) (b : Buff) (p : Provider) (s : Sys env.World)
        (r : Option Device × Provider × Sys env.World)
        → Allocates env
        → IsValid b
        → Found sn p s r
        → Excused (PictureTaken p b s) (take_found env sn param b r)
    unfolding take_found
    take_found-PictureTaken sn param b p s (none, q, t) a valid k = record {
      inv = k.inv;
      buffer = valid;
      no_data = inr (omega arith);
      conserves = k.conserves;
    }
    take_found-PictureTaken sn param b p s (some d, q, t) a valid k =
        Excused->>= (Taken env laws a d b t) _ (Picture.take_picture env d param b t) _
          (take_picture-Taken env laws a d param b t k.ready.0 k.ready.1 valid)
          λ r j. record {
            inv = insert-AllDevices IsFit sn r.1 q.cameras_list (j.consistent, j.state) k.inv;
            buffer = j.buffer;
            no_data = j.no_data;
            conserves = λ h n. omega (
              arith,
              j.conserves h n,
              k.conserves h n,
              map_held-insert sn r.1 q.cameras_list h,
              ap (λ x. found_held x h) k.ready.2,
            );
          }

    -- With an SDK that behaves as documented and an allocator that gives blocks of the size asked
    -- for, from a provider whose devices are all ready or closed and into a valid buffer:
    -- `take_picture` of the provider never goes through a NULL camera, fails no assertion on the
    -- state of a camera and touches no memory outside of the buffers; it ends the process at most
    -- by an image of the full size of the buffer or by a counter that has come round. Where it
    -- returns, every device of the map is ready or closed, the buffer is valid, an error leaves no
    -- more data in it than there was, and every handle created is destroyed again or held by a
    -- device of the map.
    pub take_picture-PictureTaken :
        (p : Provider) (sn : List ℕ) (param : Option ImageParameter) (b : Buff) (s : Sys env.World)
        → Allocates env
        → Inv p
        → IsValid b
        → Excused (PictureTaken p b s) (take_picture env p sn param b s)
    unfolding take_picture
    take_picture-PictureTaken p sn param b s a v valid =
        Excused->>= (Found (to_upper sn) p s) _ (find_or_create_camera_device env p sn s) _
          (Returns-Excused (Found (to_upper sn) p s) (Found (to_upper sn) p s)
            (find_or_create_camera_device env p sn s) (find_or_create-Found p sn s v) (λ r k. k))
          λ r k. take_found-PictureTaken (to_upper sn) param b p s r a valid k
