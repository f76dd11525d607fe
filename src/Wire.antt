-- ===== src/Wire.antt =====
-- The messages of src/camera-service.pb.cc, and how they are cleared, merged and copied; what they
-- write is in Wire.Written, what their parsers store in Wire.Stored. The wire format itself, the
-- split of bytes into fields and the check for UTF-8 are the protobuf library's: the record `Codec`.
pub mod Written
pub mod Stored
pub mod Laws
pub mod Fields
pub mod Copies
pub mod Shapes
pub mod Requests
pub mod Metas
pub mod Reading
pub mod Listing
pub mod Answers
pub mod Merging
pub mod Sample
mod Tests
use grpc_cplugplug_example.Base.{
  ◌++◌, ℕ, Bool, true, false, Option, none, some, List, [], ◌∷◌, map, if◌then◌else◌, Result, ok,
  or_fault, bad_access, ◌>>=◌,
}
use grpc_cplugplug_example.Base.Int.{ℤ, pos, nonzero}
use grpc_cplugplug_example.Provider.Map.{insert}
use grpc_cplugplug_example.Grpc.{CameraMeta, ImageRequest}

-- A field that was read: its number, and its bytes or its value.
pub data Field : Type 0 where
  chunk : ℕ → List ℕ → Field
  varint : ℕ → ℤ → Field

-- The protobuf library.
pub record Codec : Type 0 where
  -- `WriteStringMaybeAliased` and `WriteBytesMaybeAliased`.
  pub write_string : ℕ → List ℕ → List ℕ
  -- `StringSize` and `BytesSize`.
  pub string_size : List ℕ → ℕ
  -- `WriteInt32ToArrayWithField`
  pub write_int32 : ℕ → ℤ → List ℕ
  pub int32_size_plus_one : ℤ → ℕ
  -- `InternalWriteMessage`, for the bytes of the message.
  pub write_message : ℕ → List ℕ → List ℕ
  -- `MessageSize`, for a message of this size.
  pub message_size : ℕ → ℕ
  -- `MapEntryFuncs`
  pub write_entry : ℕ → List ℕ × List ℕ → List ℕ
  pub entry_size : List ℕ × List ℕ → ℕ
  -- The parser: the fields of a message, the key and the value of an entry, and the check of a text.
  pub fields : List ℕ → Option (List Field)
  pub entry_of : List ℕ → Option (List ℕ × List ℕ)
  pub is_utf8 : List ℕ → Bool

-- `ImageShape_`
pub record ImageShape : Type 0 where
  pub width : ℤ
  pub height : ℤ
  pub channel : ℤ

-- `ImageRequest_`, with the bit that says whether the shape counts.
pub record RequestMessage : Type 0 where
  pub sn : List ℕ
  pub has_image_shape : Bool
  pub image_shape : Option ImageShape

abbrev pub zero_shape : ImageShape
zero_shape = record { width = pos 0; height = pos 0; channel = pos 0 }

abbrev pub empty_request : RequestMessage
empty_request = record { sn = []; has_image_shape = false; image_shape = none }

abbrev pub empty_meta : CameraMeta
empty_meta = record {
  serial_number = [];
  model_name = [];
  manufacture_name = [];
  device_version = [];
  user_defined_name = [];
  camera_type = [];
  info = [];
}

-- What the handler of `GetImage` reads: a shape that is not there is the default one.
unfoldable pub shape_read : Bool → Option ImageShape → ImageShape
shape_read true (some s) = s
shape_read _ _ = zero_shape

unfoldable pub request_of : RequestMessage → ImageRequest
unfolding shape_read
request_of m =
    let s = shape_read m.has_image_shape m.image_shape in
    record { sn = m.sn; width = s.width; height = s.height; channel = s.channel }

-- A text that is not empty replaces another one.
abbrev pub text_merged : List ℕ → List ℕ → List ℕ
text_merged to [] = to
text_merged to from = from

abbrev pub int_merged : ℤ → ℤ → ℤ
int_merged to from = if nonzero from then from else to

-- `MergeImpl`, `Clear` and `CopyFrom` of each message; two different objects are copied.
unfoldable pub merge_shape : ImageShape → ImageShape → ImageShape
merge_shape to from = record {
  width = int_merged to.width from.width;
  height = int_merged to.height from.height;
  channel = int_merged to.channel from.channel;
}

unfoldable pub copy_shape : ImageShape → ImageShape → ImageShape
unfolding merge_shape
copy_shape to from = merge_shape zero_shape from

unfoldable pub clear_request : RequestMessage → Result RequestMessage
clear_request m =
    if m.has_image_shape
    then (or_fault m.image_shape bad_access >>= λ s.
        ok (record { sn = []; has_image_shape = false; image_shape = some zero_shape }))
    else ok (record { sn = []; has_image_shape = false; image_shape = m.image_shape })

abbrev pub merged_shape : Option ImageShape → ImageShape → ImageShape
merged_shape none s = s
merged_shape (some t) s = merge_shape t s

unfoldable pub merge_request : RequestMessage → RequestMessage → Result RequestMessage
unfolding merge_shape
merge_request to from =
    let sn = text_merged to.sn from.sn in
    if from.has_image_shape
    then (or_fault from.image_shape bad_access >>= λ s. ok (record {
      sn = sn;
      has_image_shape = true;
      image_shape = some (merged_shape to.image_shape s);
    }))
    else ok (record to { sn = sn })

unfoldable pub copy_request : RequestMessage → RequestMessage → Result RequestMessage
unfolding clear_request merge_request
copy_request to from = clear_request to >>= λ m. merge_request m from

-- `Map::MergeFrom`: an entry of the other map replaces one with its key.
unfoldable pub merge_info : List (List ℕ × List ℕ) → List (List ℕ × List ℕ) → List (List ℕ × List ℕ)
merge_info to [] = to
merge_info to ((k, v) ∷ from) = merge_info (insert k v to) from

unfoldable pub merge_meta : CameraMeta → CameraMeta → CameraMeta
unfolding merge_info
merge_meta to from = record {
  serial_number = text_merged to.serial_number from.serial_number;
  model_name = text_merged to.model_name from.model_name;
  manufacture_name = text_merged to.manufacture_name from.manufacture_name;
  device_version = text_merged to.device_version from.device_version;
  user_defined_name = text_merged to.user_defined_name from.user_defined_name;
  camera_type = text_merged to.camera_type from.camera_type;
  info = merge_info to.info from.info;
}

unfoldable pub copy_meta : CameraMeta → CameraMeta → CameraMeta
unfolding merge_meta
copy_meta to from = merge_meta empty_meta from

-- The content of a `BytesBody`.
unfoldable pub merge_body : List ℕ → List ℕ → List ℕ
merge_body to from = text_merged to from

unfoldable pub copy_body : List ℕ → List ℕ → List ℕ
unfolding merge_body
copy_body to from = merge_body [] from

-- The descriptions of a `CameraMetas`.
unfoldable pub merge_metas : List CameraMeta → List CameraMeta → List CameraMeta
merge_metas to from = to ++ from

unfoldable pub copy_metas : List CameraMeta → List CameraMeta → List CameraMeta
unfolding merge_metas
copy_metas to from = merge_metas [] from
