-- ===== src/Camera/Tests.antt =====
-- Runs of a `CMvCamera` on the SDK with one camera.
use grpc_cplugplug_example.Base.{some}
use grpc_cplugplug_example.Sdk.Sample.{one_camera, one_camera-Laws, at_start, gige_device}
use grpc_cplugplug_example.Camera.{Camera, open_camera}
use grpc_cplugplug_example.Camera.Handles.{Opened, open_camera-Opened}

abbrev open_camera_object : Camera
open_camera_object = record { handle = 5 }

open_camera-Opened_example :
    Opened one_camera one_camera-Laws open_camera_object at_start
      (open_camera one_camera open_camera_object (some gige_device) at_start)
open_camera-Opened_example =
    open_camera-Opened one_camera one_camera-Laws open_camera_object (some gige_device) at_start
      (λ e. cc e) (λ e. cc e)
