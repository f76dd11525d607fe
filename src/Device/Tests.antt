-- ===== src/Device/Tests.antt =====
-- Runs of a device on the SDK with one camera.
use grpc_cplugplug_example.Base.{
  refl, true, none, some, [], ◌∷◌, Returns, Excused, arith, sym, ap, ◌∙◌, length, length-replicate,
}
use grpc_cplugplug_example.Buffer.{Buff, bytes}
use grpc_cplugplug_example.Buffer.Valid.{IsValid}
use grpc_cplugplug_example.Sdk.Sample.{
  one_camera, one_camera-Laws, at_start, gige_device, small_frame,
}
use grpc_cplugplug_example.Camera.{Camera}
use grpc_cplugplug_example.Device.{Device, Times, init, stop_grapping, stop_and_close, start}
use grpc_cplugplug_example.Device.Picture.{ImageParameter, to_jpg, take_picture}
use grpc_cplugplug_example.Device.States.{IsConsistent, IsReady, init-IsConsistent, init-IsClosed}
use grpc_cplugplug_example.Device.Stopping.{
  StopTried, stop_grapping-StopTried, Stopped, stop_and_close-Stopped,
}
use grpc_cplugplug_example.Device.Starting.{Started, start-Started}
use grpc_cplugplug_example.Device.Converting.{Allocates}
use grpc_cplugplug_example.Device.Taking.{Taken, take_picture-Taken}
use grpc_cplugplug_example.Device.Clamp.{AskedOnce, to_jpg-AskedOnce}

one_camera-Allocates : Allocates one_camera
one_camera-Allocates w n m e = sym (ap (λ o. length (bytes o)) e) ∙ length-replicate n 0

abbrev small_buffer : Buff
small_buffer = record { buff = some (0 ∷ 0 ∷ 0 ∷ 0 ∷ []); buff_max_size = 4; data_size = 0 }

small_buffer-IsValid : IsValid small_buffer
small_buffer-IsValid = record { shape = refl; fits = omega arith; word = omega arith }

abbrev some_times : Times
some_times = record { last = 0; total = 0; count = 0; avg = 0 }

abbrev open_camera_object : Camera
open_camera_object = record { handle = 5 }

-- A device with a camera that grabs.
abbrev grabbing : Device
grabbing = record {
  camera = some open_camera_object;
  camera_open = true;
  grapping = true;
  default_buff_size = 4;
  cache_data = small_buffer;
  conv_image = some_times;
  take_times = some_times;
  wait_timeout = 1000;
  default_image_type = 2;
  default_quality = 80;
  default_method = 2;
}

grabbing-IsConsistent : IsConsistent grabbing
grabbing-IsConsistent = record {
  state = (omega arith, refl);
  cache = small_buffer-IsValid;
  size = omega arith;
}

grabbing-IsReady : IsReady grabbing
grabbing-IsReady = (λ e. cc e, refl, refl)

-- A width that is larger than the frame's, and a type and a method that are not known.
abbrev odd_parameter : ImageParameter
odd_parameter = record { image_type = 9; width = 7; height = 1; quality = 80; method = 8 }

stop_grapping-StopTried_example :
    Returns
      (StopTried one_camera grabbing open_camera_object at_start)
      (stop_grapping one_camera grabbing at_start)
stop_grapping-StopTried_example =
    stop_grapping-StopTried one_camera grabbing open_camera_object at_start

stop_and_close-Stopped_example :
    Returns (Stopped one_camera grabbing at_start) (stop_and_close one_camera grabbing at_start)
stop_and_close-Stopped_example =
    stop_and_close-Stopped one_camera grabbing at_start grabbing-IsConsistent

start-Started_example :
    Returns
      (Started one_camera one_camera-Laws (init one_camera) at_start)
      (start one_camera (init one_camera) gige_device at_start)
start-Started_example =
    start-Started one_camera one_camera-Laws (init one_camera) gige_device at_start
      (init-IsConsistent one_camera) (init-IsClosed one_camera)

take_picture-Taken_example :
    Excused
      (Taken one_camera one_camera-Laws one_camera-Allocates grabbing small_buffer at_start)
      (take_picture one_camera grabbing none small_buffer at_start)
take_picture-Taken_example =
    take_picture-Taken one_camera one_camera-Laws one_camera-Allocates grabbing none small_buffer
      at_start grabbing-IsConsistent grabbing-IsReady small_buffer-IsValid

to_jpg-AskedOnce_example :
    Excused (AskedOnce one_camera open_camera_object (7 ∷ []) small_frame at_start) (
      to_jpg one_camera grabbing open_camera_object
        (7 ∷ [])
        small_frame
        (some odd_parameter)
        small_buffer
        at_start)
to_jpg-AskedOnce_example =
    to_jpg-AskedOnce one_camera one_camera-Laws one_camera-Allocates grabbing open_camera_object
      (7 ∷ []) small_frame (some odd_parameter) small_buffer at_start (omega arith)
      small_buffer-IsValid ((omega arith, omega arith), (omega arith, omega arith), omega arith)
