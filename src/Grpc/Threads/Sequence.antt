-- ===== src/Grpc/Threads/Sequence.antt =====
-- One thread alone, beside the calls served one after the other.
pub mod Pictures
pub mod Calls
use Prim.Native.Nat.{bit_or}
use grpc_cplugplug_example.Base.{
  ℕ, zero, suc, ◌+◌, ◌*◌, ◌<◌, ◌≤◌, ◌≡◌, ◌≢◌, refl, ap, sym, ◌∙◌, ◌⊎◌, inl, inr, true, false,
  Option, none, some, List, [], ◌∷◌, ◌++◌, append-nil, length, set, replicate, ◌==◌, if◌then◌else◌,
  arith, Bool-cases, Option-cases, Result, ok, fault, ◌>>=◌, >>=_assoc, Result-cases,
}
use grpc_cplugplug_example.Base.Int.{nonzero}
use grpc_cplugplug_example.Buffer.{Buff}
use grpc_cplugplug_example.Text.{c_str, to_upper}
use grpc_cplugplug_example.Sdk.{DeviceInfo, Env, Sys}
use grpc_cplugplug_example.Device
use grpc_cplugplug_example.Device.{Device, is_shutdown}
use grpc_cplugplug_example.Device.Picture
use grpc_cplugplug_example.Provider
use grpc_cplugplug_example.Provider.{
  Provider, find_or_create_camera_device, take_picture, destroy_device, find_info, take_found,
  or_create, find_camera_device_by_sn, find_camera_info_by_sn, found, create_device, started,
  add_camera_device, replaced,
}
use grpc_cplugplug_example.Provider.{enum_all_cameras_info}
use grpc_cplugplug_example.Provider.Metas.{enum_all_cameras, to_camera_meta_info_list}
use grpc_cplugplug_example.Camera.Forward.{enum_devices}
use grpc_cplugplug_example.Provider.Map.{text_eq_iff, lookup, insert, erase, lookup-insert}
use grpc_cplugplug_example.Provider.Shared.{Object, Objects, at, make_shared, share, release}
use grpc_cplugplug_example.Provider.Shared.Heap.{at-set, at-append}
use grpc_cplugplug_example.Grpc.{
  ImageRequest, Reply, add_messages, get_camera_metas, get_image, reset, content_of, image_buffer,
}
use grpc_cplugplug_example.Grpc.Serving.{Call, camera_metas, reset_all, image, serve_call, serve}
use grpc_cplugplug_example.Grpc.Threads.{
  Answer, metas, picture, reset_done, Stage, idle, listing, looking, missing, opening, adding,
  holding, dropping, Thread, ready_thread, Shared, Turned, Server, finish, begin, look, look_object,
  search_info, open_device, release_old, add_device, shoot, go_on, next_call, act, turn_of, turn,
  run, fresh,
}
use grpc_cplugplug_example.Grpc.Threads.Owners.{map_owned, found_owned, map_owned-erase}
use grpc_cplugplug_example.Grpc.Threads.Single.{
  owned, Same, Same-agree, Same-lookup-none, Same-lookup, Same-update, Same-insert, Same-erase,
  Same-bound,
}

-- Two results that are the same fault, or values in the relation.
abbrev pub Related : {A B : Type 0} → (A → B → Type 0) → Result A → Result B → Type 0
Related R (ok a) (ok b) = R a b
Related R (fault e) (fault f) = e ≡ f
Related R _ _ = ⊥

module _ (env : Env) where
  abbrev pub Answers : Type 0
  Answers = List Answer × Provider × Sys env.World

  -- The calls served one after the other, with their answers behind those that are given.
  unfoldable pub answer_calls : List Call → Answers → Result Answers
  answer_calls [] r = ok r
  answer_calls (camera_metas ∷ cs) (a, p, s) =
      let r = get_camera_metas env p s in answer_calls cs (a ++ (metas r.1 ∷ []), r.2, r.3)
  answer_calls (reset_all ∷ cs) (a, p, s) =
      let r = reset env p s in answer_calls cs (a ++ (reset_done ∷ []), r.1, r.2)
  answer_calls (image q ∷ cs) (a, p, s) =
      get_image env p q s >>= λ r. answer_calls cs (a ++ (picture (r.0, r.1) ∷ []), r.2, r.3)

  abbrev pub provider : List (Option DeviceInfo) → List (List ℕ × Device) → Provider
  provider infos l = record { camera_info_list = infos; cameras_list = l }

  abbrev pub shared :
      List (Option DeviceInfo) → List (List ℕ × ℕ) → Objects → Sys env.World → Shared env
  shared infos m os s = record { camera_info_list = infos; cameras_list = m; objects = os; sys = s }

  -- A server of one thread.
  abbrev pub alone : List Call → Stage → List Answer → Shared env → Server env
  alone cs stage a sh = record {
    shared = sh;
    threads = record { calls = cs; stage = stage; answers = a } ∷ [];
  }

  abbrev pub follow : ℕ → List Call → Stage → List Answer → Shared env → Result (Server env)
  follow n cs stage a sh = run env (replicate n 0) (alone cs stage a sh)

  -- The thread has answered everything, and its devices are those of the provider.
  pub record Final (st : Server env) (r : Answers) : Type 0 where
    pub threads : st.threads ≡ record { calls = []; stage = idle; answers = r.0 } ∷ []
    pub infos : (st.shared).camera_info_list ≡ (r.1).camera_info_list
    pub sys : (st.shared).sys ≡ r.2
    pub same : Same (st.shared).objects (st.shared).cameras_list (r.1).cameras_list

  -- What is to be shown for the calls `cs`.
  abbrev pub Simulated : List Call → Type 0
  Simulated cs =
      (n : ℕ) (a : List Answer) (infos : List (Option DeviceInfo)) (m : List (List ℕ × ℕ))
      (l : List (List ℕ × Device)) (os : Objects) (s : Sys env.World)
      → 7 * length cs ≤ n
      → Same os m l
      → Related Final (follow n cs idle a (shared infos m os s))
          (answer_calls cs (a, provider infos l, s))

  -- The end of a call for an image.
  abbrev pub after_shot : List Call → List Answer → Provider.Shot env → Result Answers
  after_shot cs a r = answer_calls cs (a ++ (picture (content_of r.2) ∷ []), r.1, r.3)

  -- The end of a pointer beside another one.
  pub release_two :
      (os : Objects) (i : ℕ) (d : Device) (s : Sys env.World)
      → at os i ≡ owned d 2
      → release env os i s ≡ ok (set os i (owned d 1), s)
  unfolding release
  release_two os i d s e = simp e refl

  -- The end of the only pointer.
  pub release_one :
      (os : Objects) (i : ℕ) (d : Device) (s : Sys env.World)
      → at os i ≡ owned d 1
      → release env os i s ≡ (destroy_device env d s >>= λ s'. ok (set os i none, s'))
  unfolding release
  release_one os i d s e = simp e refl
