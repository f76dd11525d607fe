-- ===== src/Grpc/Tests.antt =====
-- Runs of the server on the SDK with one camera.
use grpc_cplugplug_example.Base.{
  ◌≡◌, List, [], ◌∷◌, Excused, sym, ap, ◌∙◌, length, length-replicate, if◌then◌else◌,
}
use grpc_cplugplug_example.Base.Int.{pos, nonzero}
use grpc_cplugplug_example.Buffer.{bytes}
use grpc_cplugplug_example.Sdk.Sample.{one_camera, one_camera-Laws, at_start}
use grpc_cplugplug_example.Device.Converting.{Allocates}
use grpc_cplugplug_example.Provider
use grpc_cplugplug_example.Provider.{enum_all_cameras_info}
use grpc_cplugplug_example.Grpc.{ImageRequest, get_camera_metas, get_image}
use grpc_cplugplug_example.Grpc.Images.{Answered, get_image-Answered}
use grpc_cplugplug_example.Grpc.Serving.{
  Call, camera_metas, reset_all, image, start_grpc_server, Kept, start_grpc_server-Kept,
}
use grpc_cplugplug_example.Grpc.Messages.{messages_of, get_camera_metas-messages_of}

one_camera-Allocates : Allocates one_camera
one_camera-Allocates w n m e = sym (ap (λ o. length (bytes o)) e) ∙ length-replicate n 0

abbrev small_image : ImageRequest
small_image = record {
  sn = b'k' ∷ b'1' ∷ b'2' ∷ [];
  width = pos 640;
  height = pos 480;
  channel = pos 3;
}

abbrev large_image : ImageRequest
large_image = record {
  sn = b'k' ∷ b'1' ∷ b'2' ∷ [];
  width = pos 1920;
  height = pos 1080;
  channel = pos 1;
}

abbrev four_calls : List Call
four_calls = camera_metas ∷ image small_image ∷ reset_all ∷ image large_image ∷ []

start_grpc_server-Kept_example :
    Excused
      (Kept one_camera (Provider.init, at_start))
      (start_grpc_server one_camera four_calls at_start)
start_grpc_server-Kept_example =
    start_grpc_server-Kept one_camera one_camera-Laws one_camera-Allocates four_calls at_start

get_image-Answered_example :
    Excused
      (Answered one_camera one_camera-Laws one_camera-Allocates Provider.init small_image.sn
        at_start)
      (get_image one_camera Provider.init small_image at_start)
get_image-Answered_example =
    get_image-Answered one_camera one_camera-Laws one_camera-Allocates Provider.init small_image
      at_start (unfold Provider.init in tt)

get_camera_metas-messages_of_example :
    let r = enum_all_cameras_info one_camera Provider.init at_start in
    (get_camera_metas one_camera Provider.init at_start).1
    ≡ (if nonzero r.0 then [] else messages_of one_camera (r.1).camera_info_list)
get_camera_metas-messages_of_example =
    get_camera_metas-messages_of one_camera Provider.init at_start
