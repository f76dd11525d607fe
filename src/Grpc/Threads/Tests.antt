-- ===== src/Grpc/Threads/Tests.antt =====
-- Runs of the server's threads on the SDK with one camera.
use Prim.Native.Nat.{bit_or}
use grpc_cplugplug_example.Base.{
  Returns, ℕ, get_elem?, ◌≡◌, refl, none, some, ok, ◌>>=◌, List, [], ◌∷◌, ◌++◌, fault,
  state_assertion, true, false, replicate, Within, arith, sym, ap, ◌∙◌, length, length-replicate,
}
use grpc_cplugplug_example.Base.Int.{pos}
use grpc_cplugplug_example.Buffer
use grpc_cplugplug_example.Text.{local_stricmp, c_str, to_upper, toupper}
use grpc_cplugplug_example.Provider.{find_info}
use grpc_cplugplug_example.Provider.Map.{lookup, insert}
use grpc_cplugplug_example.Provider.Shared.{share, make_shared}
use grpc_cplugplug_example.Device
use grpc_cplugplug_example.Device.Picture
use grpc_cplugplug_example.Camera
use grpc_cplugplug_example.Buffer.{Buff, bytes}
use grpc_cplugplug_example.Buffer.Valid.{IsValid}
use grpc_cplugplug_example.Sdk.{Request, Reply, Env, is_device_connected}
use grpc_cplugplug_example.Sdk.Sample.{one_camera, one_camera-Laws, at_start, gige_device}
use grpc_cplugplug_example.Camera.{Camera}
use grpc_cplugplug_example.Device.{Device, Times}
use grpc_cplugplug_example.Device.States.{IsConsistent}
use grpc_cplugplug_example.Device.Converting.{Allocates}
use grpc_cplugplug_example.Grpc.{ImageRequest, image_buffer, add_messages}
use grpc_cplugplug_example.Grpc.Serving.{Call, camera_metas, reset_all, image}
use grpc_cplugplug_example.Grpc.Threads.{
  Thread, holding, idle, listing, metas, Server, turn, run, fresh,
}
use grpc_cplugplug_example.Grpc.Threads.Schedules.{Guarded, Accounted, run-Accounted}
use grpc_cplugplug_example.Grpc.Threads.Lone.{SizeOrCounter, run_alone-Accounted}
use grpc_cplugplug_example.Grpc.Serving.{serve}
use grpc_cplugplug_example.Grpc.Threads.Sequence.{Related, Final, answer_calls, provider}
use grpc_cplugplug_example.Grpc.Threads.Sequence.Calls.{run_alone-answer_calls}
use grpc_cplugplug_example.Grpc.Threads.Progress.{Answered, run-Answered}
use grpc_cplugplug_example.Grpc.Threads.Race.{run_race}
use grpc_cplugplug_example.Grpc.Threads.Stale.{run_stale}
use grpc_cplugplug_example.Camera.Forward.{enum_devices}
use grpc_cplugplug_example.Provider.Metas.{to_camera_meta_info_list}
use grpc_cplugplug_example.Grpc.Threads.Advances.{Any}
use grpc_cplugplug_example.Grpc.Threads.Keys.{run_keys}

one_camera-Allocates : Allocates one_camera
one_camera-Allocates w n m e = sym (ap (λ o. length (bytes o)) e) ∙ length-replicate n 0

abbrev one_image : ImageRequest
one_image = record {
  sn = b'k' ∷ b'1' ∷ b'2' ∷ [];
  width = pos 640;
  height = pos 480;
  channel = pos 3;
}

-- Two clients that ask for the same camera.
abbrev two_clients : List (List Call)
two_clients = (camera_metas ∷ image one_image ∷ []) ∷ (image one_image ∷ reset_all ∷ []) ∷ []

abbrev both_look : List ℕ
both_look = 0 ∷ 0 ∷ 0 ∷ 0 ∷ 1 ∷ 1 ∷ 0 ∷ 0 ∷ 1 ∷ 0 ∷ 1 ∷ 1 ∷ []

abbrev one_after_the_other : List ℕ
one_after_the_other = replicate 14 0 ++ replicate 14 1

run-Accounted_example :
    Within Guarded
      (Accounted one_camera at_start)
      (run one_camera both_look (fresh one_camera two_clients [] at_start))
run-Accounted_example =
    run-Accounted one_camera one_camera-Laws one_camera-Allocates two_clients [] at_start both_look

run_alone-Accounted_example : Within SizeOrCounter (Accounted one_camera at_start) (
    run one_camera both_look
      (fresh one_camera ((camera_metas ∷ image one_image ∷ []) ∷ []) [] at_start))
run_alone-Accounted_example =
    run_alone-Accounted one_camera one_camera-Laws one_camera-Allocates
      (camera_metas ∷ image one_image ∷ []) [] at_start both_look

run-Answered_example :
    Within Guarded
      (Answered one_camera 1 (image one_image ∷ reset_all ∷ []))
      (run one_camera one_after_the_other (fresh one_camera two_clients [] at_start))
run-Answered_example =
    run-Answered one_camera one_camera-Laws one_camera-Allocates two_clients [] at_start
      one_after_the_other 1 (image one_image ∷ reset_all ∷ []) refl (omega arith)

run_alone-answer_calls_example :
    let cs = camera_metas ∷ image one_image ∷ [] in
    let a = answer_calls one_camera cs ([], provider one_camera [] [], at_start) in
    Related
      (Final one_camera)
      (run one_camera (replicate 14 0) (fresh one_camera (cs ∷ []) [] at_start))
      a
    × ((a >>= λ r. ok (r.1, r.2)) ≡ serve one_camera cs (provider one_camera [] [], at_start))
run_alone-answer_calls_example =
    run_alone-answer_calls one_camera (camera_metas ∷ image one_image ∷ []) [] at_start 14
      (omega arith)

abbrev lost_answer : (r : Request) (h w : ℕ) → Reply r × ℕ
lost_answer is_device_connected h w = (false, w)
lost_answer r h w = one_camera.call r h w

-- The SDK, when the camera is gone.
abbrev lost_camera : Env
lost_camera = record one_camera { call = lost_answer }

abbrev small_buffer : Buff
small_buffer = record { buff = some (0 ∷ 0 ∷ 0 ∷ 0 ∷ []); buff_max_size = 4; data_size = 0 }

small_buffer-IsValid : IsValid small_buffer
small_buffer-IsValid = record { shape = refl; fits = omega arith; word = omega arith }

abbrev some_times : Times
some_times = record { last = 0; total = 0; count = 0; avg = 0 }

abbrev grabbing : Device
grabbing = record {
  camera = some (record { handle = 5 });
  camera_open = true;
  grapping = true;
  default_buff_size = 4;
  cache_data = small_buffer;
  conv_image = some_times;
  take_times = some_times;
  wait_timeout = 1000;
  default_image_type = 2;
  default_quality = 80;
  default_method = 2;
}

grabbing-IsConsistent : IsConsistent grabbing
grabbing-IsConsistent = record {
  state = (omega arith, refl);
  cache = small_buffer-IsValid;
  size = omega arith;
}

abbrev about_to_shoot : Thread
about_to_shoot = record { calls = []; stage = holding one_image.sn small_buffer 0; answers = [] }

-- Two threads and the map point to the one device.
abbrev two_at_one : Server lost_camera
two_at_one = record {
  shared = record {
    camera_info_list = some gige_device ∷ [];
    cameras_list = (one_image.sn, 0) ∷ [];
    objects = some (record { device = grabbing; owners = 3 }) ∷ [];
    sys = at_start;
  };
  threads = about_to_shoot ∷ about_to_shoot ∷ [];
}

run_race_example : run lost_camera (0 ∷ 1 ∷ []) two_at_one ≡ fault state_assertion
run_race_example =
    run_race lost_camera 0 1 0 about_to_shoot about_to_shoot
      (record { device = grabbing; owners = 3 }) (record { handle = 5 }) one_image.sn one_image.sn
      small_buffer small_buffer two_at_one (λ e. absurd (omega (arith, e))) refl refl refl refl refl
      grabbing-IsConsistent refl refl refl refl

run_keys_example :
    Within Any
      (λ st.
        (a b : ℕ) (k l : List ℕ) (i j : ℕ)
        → get_elem? st.shared.cameras_list a ≡ some (k, i)
        → get_elem? st.shared.cameras_list b ≡ some (l, j)
        → (to_upper k ≡ k) × (to_upper k ≡ to_upper l → a ≡ b))
      (run one_camera both_look (fresh one_camera two_clients (some gige_device ∷ []) at_start))
run_keys_example = run_keys one_camera two_clients (some gige_device ∷ []) at_start both_look

-- One thread is about to list the cameras, another one begins to.
abbrev two_lists : Server one_camera
two_lists = record {
  shared = record {
    camera_info_list = some gige_device ∷ some gige_device ∷ [];
    cameras_list = [];
    objects = [];
    sys = at_start;
  };
  threads =
      record { calls = camera_metas ∷ []; stage = idle; answers = [] }
      ∷ record { calls = reset_all ∷ []; stage = listing (pos 0); answers = [] }
      ∷ [];
}

run_stale_example :
    let types = bit_or one_camera.mv_gige_device one_camera.mv_usb_device in
    let other = enum_devices one_camera types two_lists.shared.sys in
    Returns
      (λ st'.
        get_elem? st'.threads 1
        ≡ some (record {
          calls = reset_all ∷ [];
          stage = idle;
          answers = metas (add_messages [] (to_camera_meta_info_list one_camera other.1 [])) ∷ [];
        }))
      (run one_camera (0 ∷ 1 ∷ []) two_lists)
run_stale_example =
    run_stale one_camera 0 1 [] (reset_all ∷ []) [] [] two_lists (λ e. absurd (omega (arith, e)))
      refl refl

-- The same SDK, with no memory for images.
abbrev no_memory : Env
no_memory = record lost_camera { malloc = λ w n. none }

abbrev race : List ℕ
race = 0 ∷ 0 ∷ 0 ∷ 0 ∷ 0 ∷ 1 ∷ 1 ∷ 0 ∷ 1 ∷ []

-- The two threads reach the assertion from the start of the server.
race_reached :
    run no_memory race (
      fresh no_memory
        ((image one_image ∷ []) ∷ (image one_image ∷ []) ∷ [])
        (some gige_device ∷ [])
        at_start)
    ≡ fault state_assertion
unfolding run fresh turn image_buffer Buffer.ensure_size Buffer.ensure_size_copy Buffer.init
    Buffer.grow lookup insert find_info local_stricmp c_str to_upper toupper Device.start
    Device.start_opened Device.open_camera Device.init Device.opened Device.set_packet_size
    Device.init_cam_params Device.start_with Device.start_grapping Device.stop_and_close
    Device.stop_grapping Device.stop_with Device.stop_retry Device.close_camera
    Device.close_and_delete Camera.init Camera.create Camera.open_created Camera.open_new
    Camera.open_camera Camera.start_grab Camera.stop_grab Camera.close Camera.destroy Camera.get_int
    Camera.set_int Camera.set_enum Camera.packet_size Camera.is_connected Picture.take_picture
    Picture.take_asserted Picture.take_with Device.is_shutdown share make_shared Device.no_times
race_reached = refl
