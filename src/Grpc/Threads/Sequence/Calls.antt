-- ===== src/Grpc/Threads/Sequence/Calls.antt =====
-- The calls of one thread, beside the calls served one after the other.
use Prim.Native.Nat.{bit_or}
use grpc_cplugplug_example.Base.{
  ℕ, zero, suc, ◌+◌, ◌*◌, ◌≤◌, ◌≡◌, refl, inl, inr, Option, none, List, [], ◌∷◌, ◌++◌, append-nil,
  length, replicate, arith, Bool-cases, Result, ok, fault, ◌>>=◌, >>=_assoc, Result-cases,
}
use grpc_cplugplug_example.Base.Int.{nonzero}
use grpc_cplugplug_example.Buffer.{Buff}
use grpc_cplugplug_example.Text.{to_upper}
use grpc_cplugplug_example.Sdk.{DeviceInfo, Env, Sys}
use grpc_cplugplug_example.Device.{Device}
use grpc_cplugplug_example.Provider
use grpc_cplugplug_example.Provider.{
  Provider, find_or_create_camera_device, take_picture, destroy_device, find_info, take_found,
  or_create, find_camera_device_by_sn, find_camera_info_by_sn, found, create_device, started,
  add_camera_device, replaced,
}
use grpc_cplugplug_example.Provider.{enum_all_cameras_info}
use grpc_cplugplug_example.Provider.Metas.{enum_all_cameras, to_camera_meta_info_list}
use grpc_cplugplug_example.Camera.Forward.{enum_devices}
use grpc_cplugplug_example.Provider.Shared.{Objects}
use grpc_cplugplug_example.Grpc.{
  ImageRequest, Reply, add_messages, get_camera_metas, get_image, reset, content_of, image_buffer,
}
use grpc_cplugplug_example.Grpc.Serving.{Call, camera_metas, reset_all, image, serve_call, serve}
use grpc_cplugplug_example.Grpc.Threads.{
  Answer, metas, picture, reset_done, looking, begin, go_on, next_call, act, turn_of, turn, run,
  fresh,
}
use grpc_cplugplug_example.Grpc.Threads.Single.{Same}
use grpc_cplugplug_example.Grpc.Threads.Sequence.{
  Related, answer_calls, provider, shared, follow, Final, Simulated, after_shot,
}
use grpc_cplugplug_example.Grpc.Threads.Sequence.Pictures.{look-Related}

module _ (env : Env) where
  module _ (cs : List Call) (later : Simulated env cs) where
    abbrev reply_of : Provider.Shot env → Reply env
    reply_of r = ((content_of r.2).0, (content_of r.2).1, r.1, r.3)

    after_image :
        (a : List Answer) (x : Result (Provider.Shot env))
        → (x >>= (λ r. ok (reply_of r)) >>= λ r.
            answer_calls env cs (a ++ (picture (r.0, r.1) ∷ []), r.2, r.3))
          ≡ (x >>= λ r. after_shot env cs a r)
    after_image a (ok r) = refl
    after_image a (fault e) = refl

    image-Related :
        (n : ℕ) (a : List Answer) (q : ImageRequest) (b : Buff) (infos : List (Option DeviceInfo))
        (m : List (List ℕ × ℕ)) (l : List (List ℕ × Device)) (os : Objects) (s : Sys env.World)
        → 7 * length cs + 6 ≤ n
        → Same os m l
        → Related
            (Final env)
            (follow env n cs (looking (to_upper q.sn) b) a (shared env infos m os s))
            (take_picture env (provider env infos l) q.sn none b s >>= λ r. after_shot env cs a r)
    unfolding take_picture find_or_create_camera_device
    image-Related n a q b infos m l os s le v =
        let sn = to_upper q.sn in
        rw
          (>>=_assoc
            (find_camera_device_by_sn env (provider env infos l) sn s >>= λ r. or_create env sn r)
            (λ r. take_found env sn none b r) (λ r. after_shot env cs a r))
          (look-Related env cs later n a sn b infos m l os s le v)

    call-Related : (c : Call) → Simulated env (c ∷ cs)
    unfolding run turn turn_of act next_call begin go_on answer_calls get_image get_camera_metas
        reset enum_all_cameras enum_all_cameras_info
    call-Related c zero a infos m l os s le v = absurd (omega (arith, le))
    call-Related reset_all (suc n) a infos m l os s le v =
        later n (a ++ (reset_done ∷ [])) infos m l os s (omega (arith, le)) v
    call-Related (image q) (suc n) a infos m l os s le v =
        elim (Result-cases (image_buffer env s)) [
          | inr (f, e) ↦ rw e refl
          | inl (b, e) ↦
              simp
                (
                  e,
                  append-nil a,
                  after_image a (take_picture env (provider env infos l) q.sn none b s),
                )
                (image-Related n a q b infos m l os s (omega (arith, le)) v)
        ]
    call-Related camera_metas (suc zero) a infos m l os s le v = absurd (omega (arith, le))
    call-Related camera_metas (suc (suc n)) a infos m l os s le v =
        let r = enum_devices env (bit_or env.mv_gige_device env.mv_usb_device) s in
        elim (Bool-cases (nonzero r.0)) [
          | inl failed ↦
              simp (failed, append-nil a)
                (later n (a ++ (metas (add_messages [] []) ∷ [])) r.1 m l os r.2 (omega (arith, le))
                  v)
          | inr fine ↦
              simp (fine, append-nil a)
                (later n (a ++ (metas (add_messages [] (to_camera_meta_info_list env r.1 [])) ∷ []))
                  r.1 m l os r.2 (omega (arith, le)) v)
        ]

  all-Related : (cs : List Call) → Simulated env cs
  unfolding run turn turn_of act next_call answer_calls
  all-Related [] zero a infos m l os s le v = record {
    threads = refl;
    infos = refl;
    sys = refl;
    same = v;
  }
  all-Related [] (suc n) a infos m l os s le v =
      rw (append-nil a) (all-Related [] n a infos m l os s (omega arith) v)
  all-Related (c ∷ cs) n a infos m l os s le v =
      call-Related cs (all-Related cs) c n a infos m l os s le v

  -- Serving drops the answers.
  answer_calls-serve :
      (cs : List Call) (a : List Answer) (p : Provider) (s : Sys env.World)
      → (answer_calls env cs (a, p, s) >>= λ r. ok (r.1, r.2)) ≡ serve env cs (p, s)
  unfolding answer_calls serve serve_call get_camera_metas
  answer_calls-serve [] a p s = refl
  answer_calls-serve (camera_metas ∷ cs) a p s = answer_calls-serve cs _ _ _
  answer_calls-serve (reset_all ∷ cs) a p s = answer_calls-serve cs _ _ _
  answer_calls-serve (image q ∷ cs) a p s = elim (Result-cases (get_image env p q s)) [
    | inl (r, e) ↦ rw e (answer_calls-serve cs _ _ _)
    | inr (f, e) ↦ rw e refl
  ]

  -- A server of one thread that gets at least seven turns for each of its calls ends by the same fault as
  -- the calls served one after the other, or has given the same answers in the same order, and has
  -- the same list of cameras, the same state of the system, and a map of the same keys, each of
  -- which points to a device like the provider's, with no other owner. The calls served so, without
  -- their answers, are those of the model of the handlers.
  pub run_alone-answer_calls :
      (cs : List Call) (infos : List (Option DeviceInfo)) (s : Sys env.World) (n : ℕ)
      → 7 * length cs ≤ n
      → let a = answer_calls env cs ([], provider env infos [], s) in
        Related (Final env) (run env (replicate n 0) (fresh env (cs ∷ []) infos s)) a
        × ((a >>= λ r. ok (r.1, r.2)) ≡ serve env cs (provider env infos [], s))
  unfolding fresh
  run_alone-answer_calls cs infos s n le = (
    all-Related cs n [] infos [] [] [] s le tt,
    answer_calls-serve cs [] (provider env infos []) s,
  )
