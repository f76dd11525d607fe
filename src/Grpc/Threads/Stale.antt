-- ===== src/Grpc/Threads/Stale.antt =====
-- Two threads that list the cameras: `enum_all_cameras` of src/camera_service.cc reads the list when
-- it has given its lock back.
use Prim.Native.Nat.{bit_or}
use grpc_cplugplug_example.Base.{
  ℕ, ◌≡◌, ◌≢◌, ◌∙◌, some, List, [], ◌∷◌, ◌++◌, get_elem?, get_elem?-set_ne, get_elem?-set_self,
  get_elem?_bound, Returns,
}
use grpc_cplugplug_example.Base.Int.{pos}
use grpc_cplugplug_example.Sdk.{Env}
use grpc_cplugplug_example.Camera.Forward.{enum_devices}
use grpc_cplugplug_example.Provider.Metas.{to_camera_meta_info_list}
use grpc_cplugplug_example.Grpc.{add_messages}
use grpc_cplugplug_example.Grpc.Serving.{Call, camera_metas}
use grpc_cplugplug_example.Grpc.Threads.{
  idle, listing, Answer, metas, Server, begin, go_on, next_call, act, turn_of, turn, run,
}

-- A thread that has enumerated the cameras without an error, and is about to read the list, when
-- another thread begins to answer `GetCameraMetas`: it answers with the list that the other thread's
-- enumeration left, whatever this one returned and whatever it found itself.
pub run_stale :
    (env : Env) (j k : ℕ) (cs ds : List Call) (as' bs : List Answer) (st : Server env)
    → k ≢ j
    → get_elem? st.threads j
      ≡ some (record { calls = camera_metas ∷ cs; stage = idle; answers = as' })
    → get_elem? st.threads k ≡ some (record { calls = ds; stage = listing (pos 0); answers = bs })
    → let other = enum_devices env (bit_or env.mv_gige_device env.mv_usb_device) st.shared.sys in
      Returns
        (λ st'.
          get_elem? st'.threads k
          ≡ some (record {
            calls = ds;
            stage = idle;
            answers =
                bs ++ (metas (add_messages [] (to_camera_meta_info_list env other.1 [])) ∷ []);
          }))
        (run env (j ∷ k ∷ []) st)
unfolding run turn turn_of act next_call begin go_on
run_stale env j k cs ds as' bs st ne e q =
    simp (e, get_elem?-set_ne st.threads j k _ ne, q)
      (get_elem?-set_self _ k _ (get_elem?_bound _ k _ (get_elem?-set_ne st.threads j k _ ne ∙ q)))
