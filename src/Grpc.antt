-- ===== src/Grpc.antt =====
-- src/camera_grpc_server.cc: the handlers of the gRPC service, and the start and the end of the server.
-- gRPC itself is not modelled: a handler is a function from the request to the status and the response.
pub mod Images
pub mod Serving
pub mod Messages
pub mod Threads
pub mod Locks
mod Tests
use grpc_cplugplug_example.Base.{
  ℕ, ◌+◌, ◌*◌, Bool, true, false, Option, none, some, List, [], ◌∷◌, ◌++◌, take, if◌then◌else◌,
  Result, ok, ◌>>=◌,
}
use grpc_cplugplug_example.Base.Int.{ℤ, pos, negsuc, pos_part, nonzero, ltb_ℤ, to_uint32}
use grpc_cplugplug_example.Buffer
use grpc_cplugplug_example.Buffer.{Buff}
use grpc_cplugplug_example.Decimal.{decimal}
use grpc_cplugplug_example.Sdk.{Env, Sys}
use grpc_cplugplug_example.Device.Picture.{ImageParameter}
use grpc_cplugplug_example.Provider
use grpc_cplugplug_example.Provider.{Provider}
use grpc_cplugplug_example.Provider.Map.{text_eq}
use grpc_cplugplug_example.Provider.Metas.{CameraMetaInfo, enum_all_cameras}
use grpc_cplugplug_example.Loop.{Event, loop_until}

pub data Status : Type 0 where
  status_ok cancelled : Status

-- `CameraMeta_`, one message of `CameraMetas`.
pub record CameraMeta : Type 0 where
  pub serial_number : List ℕ
  pub model_name : List ℕ
  pub manufacture_name : List ℕ
  pub device_version : List ℕ
  pub user_defined_name : List ℕ
  pub camera_type : List ℕ
  pub info : List (List ℕ × List ℕ)

-- `ImageRequest_` with its `ImageShape_`.
pub record ImageRequest : Type 0 where
  pub sn : List ℕ
  pub width : ℤ
  pub height : ℤ
  pub channel : ℤ

-- `Map::insert`: an entry whose key is there is not taken.
unfoldable pub has_key : List ℕ → List (List ℕ × List ℕ) → Bool
has_key k [] = false
has_key k ((j, v) ∷ m) = if text_eq j k then true else has_key k m

unfoldable pub map_insert : List (List ℕ × List ℕ) → List ℕ × List ℕ → List (List ℕ × List ℕ)
unfolding has_key
map_insert m (k, v) = if has_key k m then m else m ++ ((k, v) ∷ [])

unfoldable pub insert_all : List (List ℕ × List ℕ) → List (List ℕ × List ℕ) → List (List ℕ × List ℕ)
unfolding map_insert
insert_all m [] = m
insert_all m (e ∷ l) = insert_all (map_insert m e) l

-- `add_data` and the setters.
unfoldable pub to_message : CameraMetaInfo → CameraMeta
unfolding insert_all
to_message i = record {
  serial_number = i.serial_number;
  model_name = i.model_name;
  manufacture_name = i.manufacture_name;
  device_version = i.device_version;
  user_defined_name = i.user_defined_name;
  camera_type = i.camera_type;
  info = insert_all [] i.info;
}

unfoldable pub add_messages : List CameraMeta → List CameraMetaInfo → List CameraMeta
unfolding to_message
add_messages response [] = response
add_messages response (i ∷ l) = add_messages (response ++ (to_message i ∷ [])) l

abbrev pub default_image_size : ℕ
default_image_size = 20 * 1024 * 1024

-- The parameter that `GetImage` fills in.
unfoldable pub request_parameter : ImageRequest → ImageParameter
request_parameter r = record {
  image_type = 0;
  width = to_uint32 r.width;
  height = to_uint32 r.height;
  quality = 99;
  method = 3;
}

-- `set_content` and the return; a length below 0 makes the string throw, which is caught.
unfoldable pub content_of : Buff → Status × List ℕ
content_of b =
    if ltb_ℤ (Buffer.get_data_len b) (pos 0)
    then (cancelled, [])
    else (status_ok, take (pos_part (Buffer.get_data_len b)) (Buffer.bytes (Buffer.get_buff b)))

module _ (env : Env) where
  -- The result of `enum_all_cameras` is looked at and not used. The status is that of a run without a
  -- C++ exception: for one, the source answers CANCELLED, and nothing below throws one but the
  -- library's own code where memory runs out.
  unfoldable pub get_camera_metas :
      Provider → Sys env.World → Status × List CameraMeta × Provider × Sys env.World
  unfolding add_messages
  get_camera_metas p s =
      let r = enum_all_cameras env p s in (status_ok, add_messages [] r.1, r.2, r.3)

  -- `dump_cameras`, which only logs what it finds.
  unfoldable pub dump_cameras : Provider → Sys env.World → Provider × Sys env.World
  dump_cameras p s = let r = enum_all_cameras env p s in (r.2, r.3)

  unfoldable pub image_buffer : Sys env.World → Result Buff
  image_buffer s =
      Buffer.ensure_size (env.malloc s.world) Buffer.init default_image_size >>= λ r. ok r.1

  abbrev pub Reply : Type 0
  Reply = Status × List ℕ × Provider × Sys env.World

  -- `GetImage`. The parameter is filled in, and the call is made with NULL in its place.
  unfoldable pub get_image : Provider → ImageRequest → Sys env.World → Result Reply
  get_image p request s = do
    let param = request_parameter request
    b ← image_buffer s
    r ← Provider.take_picture env p request.sn none b s
    let c = content_of r.2
    ok (c.0, c.1, r.1, r.3)

  unfoldable pub reset : Provider → Sys env.World → Status × Provider × Sys env.World
  reset p s = (status_ok, p, s)

-- `snprintf(url, sizeof(url), "%s:%d", …)` for a port that is not negative.
unfoldable pub listening_url : List ℕ → ℕ → List ℕ
listening_url host port = take 1023 (host ++ (b':' ∷ decimal port))

-- `run` of `OnlyForShutdownGrpcServer`: after how many sleeps the server is told to shut down; `server`
-- says whether there is one.
unfoldable pub shutdown_after : Bool → List Event → Option ℕ
shutdown_after server es = let stopped = loop_until es in if server then stopped else none
