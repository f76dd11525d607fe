-- ===== src/Wire/Tests.antt =====
-- Messages written and read.
use grpc_cplugplug_example.Base.{
  ℕ, ◌≡◌, refl, true, false, none, some, List, [], ◌∷◌, ◌++◌, length, ok, arith, inl, inr,
  if◌then◌else◌,
}
use grpc_cplugplug_example.Base.Int.{pos, negsuc, nonzero}
use grpc_cplugplug_example.Text.{c_str}
use grpc_cplugplug_example.Decimal.{decimal}
use grpc_cplugplug_example.Sdk.Sample.{one_camera, at_start}
use grpc_cplugplug_example.Camera.Forward.{enum_devices}
use grpc_cplugplug_example.Provider
use grpc_cplugplug_example.Provider.{enum_all_cameras_info}
use grpc_cplugplug_example.Provider.Metas.{
  enum_all_cameras, to_camera_meta_info_list, add_meta, gige_meta, usb_meta, ip_addr,
}
use grpc_cplugplug_example.Grpc.{
  CameraMeta, get_camera_metas, add_messages, to_message, insert_all, map_insert, has_key,
}
use grpc_cplugplug_example.Grpc.Messages.{messages_of}
use grpc_cplugplug_example.Provider.Map.{lookup}
use grpc_cplugplug_example.Wire.{
  ImageShape, RequestMessage, empty_request, zero_shape, request_of, copy_request,
}
use grpc_cplugplug_example.Wire.Written.{
  serialize_meta, write_text, write_info, serialize_shape, write_int, serialize_request,
  request_size, serialize_metas, metas_size,
}
use grpc_cplugplug_example.Wire.Stored.{store_request, store_metas, parse}
use grpc_cplugplug_example.Wire.Requests.{IsRequest, serialize_request-read}
use grpc_cplugplug_example.Wire.Copies.{Fresh, IsKept, copy_request_lem}
use grpc_cplugplug_example.Wire.Metas.{IsShortMeta, IsTextMeta}
use grpc_cplugplug_example.Wire.Listing.{serialize_metas-read, serialize_metas_refused}
use grpc_cplugplug_example.Wire.Merging.{parse-merged}
use grpc_cplugplug_example.Wire.{merge_shape, merge_meta, merge_body, merge_metas}
use grpc_cplugplug_example.Wire.Stored.{store_shape, store_meta, store_body}
use grpc_cplugplug_example.Wire.Written.{serialize_body}
use grpc_cplugplug_example.Wire.Answers.{Plain, get_camera_metas-read}
use grpc_cplugplug_example.Wire.Sample.{one_place, one_place-Laws}

abbrev left_camera : CameraMeta
left_camera = record {
  serial_number = b'k' ∷ b'1' ∷ [];
  model_name = b'M' ∷ [];
  manufacture_name = b'H' ∷ [];
  device_version = [];
  user_defined_name = b'l' ∷ [];
  camera_type = b'u' ∷ [];
  info = (b'i' ∷ [], b'p' ∷ []) ∷ [];
}

-- A name that is not ASCII.
abbrev odd_camera : CameraMeta
odd_camera = record left_camera { user_defined_name = 214 ∷ 208 ∷ [] }

left_camera-IsShortMeta : IsShortMeta one_place left_camera
left_camera-IsShortMeta = record {
  serial_number = omega arith;
  model_name = omega arith;
  manufacture_name = omega arith;
  device_version = omega arith;
  user_defined_name = omega arith;
  camera_type = omega arith;
  info = (omega arith, omega arith, tt);
  bytes = unfold serialize_meta write_text write_info in omega arith;
}

odd_camera-IsShortMeta : IsShortMeta one_place odd_camera
odd_camera-IsShortMeta = record {
  serial_number = omega arith;
  model_name = omega arith;
  manufacture_name = omega arith;
  device_version = omega arith;
  user_defined_name = omega arith;
  camera_type = omega arith;
  info = (omega arith, omega arith, tt);
  bytes = unfold serialize_meta write_text write_info in omega arith;
}

left_camera-IsTextMeta : IsTextMeta one_place left_camera
left_camera-IsTextMeta = record {
  serial_number = refl;
  model_name = refl;
  manufacture_name = refl;
  device_version = refl;
  user_defined_name = refl;
  camera_type = refl;
  info = (refl, refl, tt);
}

left_camera-Fresh : Fresh [] left_camera.info
unfolding lookup
left_camera-Fresh = (refl, tt)

serialize_metas-read_example :
    let l = left_camera ∷ left_camera ∷ [] in
    (metas_size one_place l ≡ length (serialize_metas one_place l))
    × (parse one_place (store_metas one_place) [] (serialize_metas one_place l) ≡ some l)
serialize_metas-read_example =
    serialize_metas-read one_place one_place-Laws (left_camera ∷ left_camera ∷ []) (
      left_camera-IsShortMeta,
      left_camera-IsTextMeta,
      left_camera-Fresh,
      (left_camera-IsShortMeta, left_camera-IsTextMeta, left_camera-Fresh, tt),
    )

serialize_metas_refused_example :
    parse one_place
      (store_metas one_place)
      []
      (serialize_metas one_place ((left_camera ∷ []) ++ (odd_camera ∷ left_camera ∷ [])))
    ≡ none
serialize_metas_refused_example =
    serialize_metas_refused one_place one_place-Laws (left_camera ∷ []) (left_camera ∷ [])
      odd_camera 214 (208 ∷ [])
      (left_camera-IsShortMeta, left_camera-IsTextMeta, left_camera-Fresh, tt)
      odd_camera-IsShortMeta refl refl refl refl refl refl

abbrev some_shape : ImageShape
some_shape = record { width = pos 640; height = negsuc 0; channel = pos 0 }

parse-merged_example :
    let b : List ℕ = 1 ∷ [] in
    let l = odd_camera ∷ [] in
    let l' = left_camera ∷ [] in
    (parse one_place (store_shape one_place) zero_shape (serialize_shape one_place some_shape)
      ≡ some (merge_shape zero_shape some_shape))
    × (parse one_place (store_meta one_place) odd_camera (serialize_meta one_place left_camera)
        ≡ some (merge_meta odd_camera left_camera))
    × (parse one_place (store_body one_place) b (serialize_body one_place (2 ∷ []))
        ≡ some (merge_body b (2 ∷ [])))
    × (parse one_place (store_metas one_place) l (serialize_metas one_place l')
        ≡ some (merge_metas l l'))
parse-merged_example =
    parse-merged one_place one_place-Laws zero_shape some_shape odd_camera left_camera (1 ∷ [])
      (2 ∷ []) (odd_camera ∷ []) (left_camera ∷ [])
      ((omega arith, omega arith), (omega arith, omega arith), (omega arith, omega arith))
      left_camera-IsShortMeta left_camera-IsTextMeta (omega arith)
      (left_camera-IsShortMeta, left_camera-IsTextMeta, left_camera-Fresh, tt)

abbrev some_request : RequestMessage
some_request = record {
  sn = b'k' ∷ b'1' ∷ [];
  has_image_shape = true;
  image_shape = some some_shape;
}

some_request-IsRequest : IsRequest one_place one_place-Laws some_request
some_request-IsRequest = record {
  text = refl;
  short = omega arith;
  there = inr (
    some_shape,
    refl,
    ((omega arith, omega arith), (omega arith, omega arith), (omega arith, omega arith)),
    unfold serialize_shape write_int in omega arith,
  );
}

serialize_request-read_example :
    (bs : List ℕ) × (m' : RequestMessage) × (serialize_request one_place some_request ≡ ok bs)
    × (request_size one_place some_request ≡ ok (length bs))
    × (parse one_place (store_request one_place) empty_request bs ≡ some m')
    × (request_of m' ≡ request_of some_request)
serialize_request-read_example =
    serialize_request-read one_place one_place-Laws some_request some_request-IsRequest

-- A request that was cleared keeps its shape.
abbrev used_request : RequestMessage
used_request = record { sn = []; has_image_shape = false; image_shape = some zero_shape }

copy_request_lem_example :
    (m : RequestMessage) × (copy_request used_request some_request ≡ ok m)
    × IsKept m
    × (request_of m ≡ request_of some_request)
copy_request_lem_example =
    copy_request_lem used_request some_request (inr (refl, inr refl)) (inl (refl, some_shape, refl))

one_camera-Plain : Plain one_place (get_camera_metas one_camera Provider.init at_start).1
unfolding get_camera_metas enum_all_cameras enum_all_cameras_info enum_devices add_messages
    to_message insert_all map_insert has_key to_camera_meta_info_list add_meta gige_meta usb_meta
    ip_addr c_str decimal Provider.init
one_camera-Plain = (
  record {
    serial_number = omega arith;
    model_name = omega arith;
    manufacture_name = omega arith;
    device_version = omega arith;
    user_defined_name = omega arith;
    camera_type = omega arith;
    info = (omega arith, omega arith, tt);
    bytes = unfold serialize_meta write_text write_info in omega arith;
  },
  record {
    serial_number = refl;
    model_name = refl;
    manufacture_name = refl;
    device_version = refl;
    user_defined_name = refl;
    camera_type = refl;
    info = (refl, refl, tt);
  },
  (
    record {
      serial_number = omega arith;
      model_name = omega arith;
      manufacture_name = omega arith;
      device_version = omega arith;
      user_defined_name = omega arith;
      camera_type = omega arith;
      info = (omega arith, omega arith, tt);
      bytes = unfold serialize_meta write_text write_info in omega arith;
    },
    record {
      serial_number = refl;
      model_name = refl;
      manufacture_name = refl;
      device_version = refl;
      user_defined_name = refl;
      camera_type = refl;
      info = (refl, refl, tt);
    },
    tt,
  ),
)

get_camera_metas-read_example :
    let r = enum_all_cameras_info one_camera Provider.init at_start in
    let l = (get_camera_metas one_camera Provider.init at_start).1 in
    (metas_size one_place l ≡ length (serialize_metas one_place l))
    × (parse one_place (store_metas one_place) [] (serialize_metas one_place l)
        ≡ some (if nonzero r.0 then [] else messages_of one_camera (r.1).camera_info_list))
get_camera_metas-read_example =
    get_camera_metas-read one_camera one_place Provider.init at_start one_place-Laws
      one_camera-Plain
