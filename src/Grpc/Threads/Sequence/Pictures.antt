-- ===== src/Grpc/Threads/Sequence/Pictures.antt =====
-- The turns of one thread in a call for an image, beside `take_picture` of the provider.

use grpc_cplugplug_example.Base.{
  ℕ, zero, suc, ◌+◌, ◌*◌, ◌≤◌, ◌≡◌, ◌≢◌, refl, ap, ◌∙◌, inl, inr, Option, none, some, List, [], ◌∷◌,
  ◌++◌, append-nil, length, set, arith, Bool-cases, Option-cases, Result, ok, ◌>>=◌, Result-cases,
}
use grpc_cplugplug_example.Base.Int.{nonzero}
use grpc_cplugplug_example.Buffer.{Buff}
use grpc_cplugplug_example.Text.{c_str}
use grpc_cplugplug_example.Sdk.{DeviceInfo, Env, Sys}
use grpc_cplugplug_example.Device
use grpc_cplugplug_example.Device.{Device, is_shutdown}
use grpc_cplugplug_example.Device.Picture
use grpc_cplugplug_example.Provider.{
  Provider, destroy_device, find_info, take_found, or_create, find_camera_device_by_sn,
  find_camera_info_by_sn, found, create_device, started, add_camera_device, replaced,
}
use grpc_cplugplug_example.Provider.Map.{text_eq_iff, lookup, insert, erase, lookup-insert}
use grpc_cplugplug_example.Provider.Shared.{Object, Objects, at, make_shared, share, release}
use grpc_cplugplug_example.Provider.Shared.Heap.{at-set, at-append}
use grpc_cplugplug_example.Grpc.{content_of}
use grpc_cplugplug_example.Grpc.Serving.{Call}
use grpc_cplugplug_example.Grpc.Threads.{
  Answer, picture, looking, missing, opening, adding, holding, finish, look, look_object,
  search_info, open_device, release_old, add_device, shoot, go_on, act, turn_of, turn, run,
}
use grpc_cplugplug_example.Grpc.Threads.Owners.{map_owned, found_owned, map_owned-erase}
use grpc_cplugplug_example.Grpc.Threads.Single.{
  owned, Same, Same-agree, Same-lookup-none, Same-lookup, Same-update, Same-insert, Same-erase,
  Same-bound,
}
use grpc_cplugplug_example.Grpc.Threads.Sequence.{
  Related, Answers, provider, shared, follow, Final, Simulated, after_shot, release_two,
  release_one,
}

module _ (env : Env) where
  module _ (cs : List Call) (later : Simulated env cs) where
    hold-Related :
        (n : ℕ) (a : List Answer) (sn : List ℕ) (b : Buff) (i : ℕ)
        (infos : List (Option DeviceInfo)) (m : List (List ℕ × ℕ)) (l : List (List ℕ × Device))
        (os os' : Objects) (s : Sys env.World) (d : Device)
        → 7 * length cs + 2 ≤ n
        → Same os' m l
        → lookup sn m ≡ some i
        → ((j : ℕ) → j ≢ i → at os j ≡ at os' j)
        → at os i ≡ owned d 2
        → Related (Final env) (follow env n cs (holding sn b i) a (shared env infos m os s)) (
            take_found env sn none b (some d, provider env infos l, s) >>= λ r.
            after_shot env cs a r)
    unfolding run turn turn_of act go_on shoot take_found release finish
    hold-Related zero a sn b i infos m l os os' s d le v e other self = absurd (omega (arith, le))
    hold-Related (suc zero) a sn b i infos m l os os' s d le v e other self =
        absurd (omega (arith, le))
    hold-Related (suc (suc n)) a sn b i infos m l os os' s d le v e other self =
        elim (Result-cases (Picture.take_picture env d none b s)) [
          | inr (f, q) ↦ simp (self, q) refl
          | inl (r, q) ↦
              let os1 : Objects = set os i (owned r.1 2) in
              let os2 : Objects = set os1 i (owned r.1 1) in
              let x : Object = record { device = d; owners = 2 } in
              let y : Object = record { device = r.1; owners = 2 } in
              let there : at os1 i ≡ owned r.1 2 =
                at-set os i i x (owned r.1 2) self ∙ ground arith in
              simp (self, q, append-nil a, release_two env os1 i r.1 r.3 there)
                (later n (a ++ (picture (content_of r.2) ∷ [])) infos m (insert sn r.1 l) os2 r.3
                  (omega (arith, le))
                  (Same-update os' os2 sn m l i r.1 v e
                    (λ j ne.
                      at-set os1 i j y (owned r.1 1) there
                      ∙ ground (arith, ne, at-set os i j x (owned r.1 2) self, other j ne))
                    (at-set os1 i i y (owned r.1 1) there ∙ ground arith)))
        ]

    -- The continuation of the sequential call, behind the device that was found or created.
    abbrev pub shot_of :
        List ℕ
        → Buff
        → List Answer
        → Result (Option Device × Provider × Sys env.World)
        → Result (Answers env)
    shot_of sn b a r = r >>= λ q. take_found env sn none b q >>= λ t. after_shot env cs a t

    add-Related :
        (n : ℕ) (a : List Answer) (sn : List ℕ) (b : Buff) (i : ℕ)
        (infos : List (Option DeviceInfo)) (m : List (List ℕ × ℕ)) (l : List (List ℕ × Device))
        (os : Objects) (s : Sys env.World) (d : Device)
        → 7 * length cs + 3 ≤ n
        → Same os m l
        → lookup sn m ≡ none
        → map_owned m i ≡ 0
        → at os i ≡ owned d 1
        → Related
            (Final env)
            (follow env n cs (adding sn b i) a (shared env infos m os s))
            (shot_of sn b a (ok (some d, provider env infos (insert sn d l), s)))
    unfolding run turn turn_of act go_on add_device release_old share
    add-Related zero a sn b i infos m l os s d le v e new there = absurd (omega (arith, le))
    add-Related (suc n) a sn b i infos m l os s d le v e new there =
        let x : Object = record { device = d; owners = 1 } in
        simp (there, e, append-nil a)
          (hold-Related n a sn b i infos (insert sn i m) (insert sn d l) (set os i (owned d 2)) os s
            d (omega (arith, le)) (Same-insert os sn m l i d v e new there)
            (lookup-insert sn sn i m ∙ ground (arith, text_eq_iff sn sn))
            (λ j ne. at-set os i j x (owned d 2) there ∙ ground (arith, ne))
            (at-set os i i x (owned d 2) there ∙ ground arith))

    open-Related :
        (n : ℕ) (a : List Answer) (sn : List ℕ) (b : Buff) (info : DeviceInfo)
        (infos : List (Option DeviceInfo)) (m : List (List ℕ × ℕ)) (l : List (List ℕ × Device))
        (os : Objects) (s : Sys env.World)
        → 7 * length cs + 4 ≤ n
        → Same os m l
        → lookup sn m ≡ none
        → Related
            (Final env)
            (follow env n cs (opening sn b info) a (shared env infos m os s))
            (shot_of sn b a (create_device env (provider env infos l) sn (some info) s))
    unfolding run turn turn_of act go_on open_device finish make_shared create_device started
        add_camera_device replaced take_found
    open-Related zero a sn b info infos m l os s le v e = absurd (omega (arith, le))
    open-Related (suc n) a sn b info infos m l os s le v e =
        elim (Result-cases (Device.start env (Device.init env) info s)) [
          | inr (f, q) ↦ simp q refl
          | inl (r, q) ↦ elim (Bool-cases (nonzero r.0)) [
            | inl failed ↦ elim (Result-cases (destroy_device env r.1 r.2)) [
              | inr (f, p) ↦ simp (q, failed, p) refl
              | inl (s', p) ↦
                  simp (q, failed, p)
                    (later n (a ++ (picture (content_of b) ∷ [])) infos m l os s'
                      (omega (arith, le)) v)
            ]
            | inr fine ↦
                simp (q, fine, Same-lookup-none os sn m l v e, append-nil a)
                  (add-Related n a sn b (length os) infos m l (os ++ (owned r.1 1 ∷ [])) r.2 r.1
                    (omega (arith, le))
                    (Same-agree os (os ++ (owned r.1 1 ∷ [])) m l
                      (λ j pos.
                        at-append os j (owned r.1 1) ∙ ground (arith, pos, Same-bound os m l j v))
                      v)
                    e (Same-bound os m l (length os) v (omega arith))
                    (at-append os (length os) (owned r.1 1) ∙ ground arith))
          ]
        ]

    miss-Related :
        (n : ℕ) (a : List Answer) (sn : List ℕ) (b : Buff) (infos : List (Option DeviceInfo))
        (m : List (List ℕ × ℕ)) (l : List (List ℕ × Device)) (os : Objects) (s : Sys env.World)
        → 7 * length cs + 5 ≤ n
        → Same os m l
        → lookup sn m ≡ none
        → Related
            (Final env)
            (follow env n cs (missing sn b) a (shared env infos m os s))
            (shot_of sn b a (or_create env sn (none, provider env infos l, s)))
    unfolding run turn turn_of act go_on search_info finish or_create find_camera_info_by_sn
        create_device take_found
    miss-Related zero a sn b infos m l os s le v e = absurd (omega (arith, le))
    miss-Related (suc n) a sn b infos m l os s le v e =
        elim (Option-cases (find_info env infos (c_str sn))) [
          | inl q ↦
              rw q
                (later n (a ++ (picture (content_of b) ∷ [])) infos m l os s (omega (arith, le)) v)
          | inr (info, q) ↦
              rw (q, append-nil a)
                (open-Related n a sn b info infos m l os s (omega (arith, le)) v e)
        ]

    pub look-Related :
        (n : ℕ) (a : List Answer) (sn : List ℕ) (b : Buff) (infos : List (Option DeviceInfo))
        (m : List (List ℕ × ℕ)) (l : List (List ℕ × Device)) (os : Objects) (s : Sys env.World)
        → 7 * length cs + 6 ≤ n
        → Same os m l
        → Related (Final env) (follow env n cs (looking sn b) a (shared env infos m os s)) (
            shot_of sn b a (
              find_camera_device_by_sn env (provider env infos l) sn s >>= λ q. or_create env sn q))
    unfolding run turn turn_of act go_on look look_object share find_camera_device_by_sn found
        or_create
    look-Related zero a sn b infos m l os s le v = absurd (omega (arith, le))
    look-Related (suc n) a sn b infos m l os s le v = elim (Option-cases (lookup sn m)) [
      | inl e ↦
          rw (e, Same-lookup-none os sn m l v e, append-nil a)
            (miss-Related n a sn b infos m l os s (omega (arith, le)) v e)
      | inr (i, e) ↦
          let (d, there, object, once) = Same-lookup os sn m l i v e in
          let x : Object = record { device = d; owners = 1 } in
          elim (Bool-cases (is_shutdown d)) [
            | inr here ↦
                simp (e, there, object, here, append-nil a)
                  (hold-Related n a sn b i infos m l (set os i (owned d 2)) os s d
                    (omega (arith, le)) v e
                    (λ j ne. at-set os i j x (owned d 2) object ∙ ground (arith, ne))
                    (at-set os i i x (owned d 2) object ∙ ground arith))
            | inl gone ↦ elim (Result-cases (destroy_device env d s)) [
              | inr (f, q) ↦ simp (e, there, object, gone, release_one env os i d s object, q) refl
              | inl (s', q) ↦
                  let (left, none_left) = Same-erase os sn m l v in
                  simp (e, there, object, gone, release_one env os i d s object, q, append-nil a)
                    (miss-Related n a sn b infos (erase sn m) (erase sn l) (set os i none) s'
                      (omega (arith, le))
                      (Same-agree os (set os i none) (erase sn m) (erase sn l)
                        (λ j pos.
                          at-set os i j x none object
                          ∙ ground (
                            arith,
                            pos,
                            map_owned-erase sn m i,
                            once,
                            ap (λ o. found_owned o i) e,
                          ))
                        left)
                      none_left)
            ]
          ]
    ]
