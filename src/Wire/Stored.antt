-- ===== src/Wire/Stored.antt =====
-- What the parsers of src/camera-service.pb.cc store: their tables, and the fields one after the other.
use mathlib.Core.Option
use grpc_cplugplug_example.Base.{
  ℕ, true, Option, none, some, List, [], ◌∷◌, ◌++◌, ◌==◌, if◌then◌else◌,
}
use grpc_cplugplug_example.Provider.Map.{insert}
use grpc_cplugplug_example.Grpc.{CameraMeta}
use grpc_cplugplug_example.Wire.{
  Field, Codec, ImageShape, RequestMessage, zero_shape, empty_meta, chunk, varint,
}

module _ (codec : Codec) where
  -- A field of a type `string` must be UTF-8.
  unfoldable pub checked : {M : Type 0} → List ℕ → M → Option M
  checked s m = if codec.is_utf8 s then some m else none

  -- What the tables of the parsers say; a field that is not in them is passed over.
  unfoldable pub store_shape : ImageShape → Field → Option ImageShape
  store_shape m (varint n v) =
      if n == 1
      then some (record m { width = v })
      else if n == 2
      then some (record m { height = v })
      else if n == 3
      then some (record m { channel = v })
      else some m
  store_shape m (chunk n s) = some m

  -- The fields are stored one after the other.
  unfoldable pub store_all : {M : Type 0} → (M → Field → Option M) → M → List Field → Option M
  store_all store m [] = some m
  store_all store m (f ∷ fs) = Option.bind (store m f) (λ m'. store_all store m' fs)

  unfoldable pub parse : {M : Type 0} → (M → Field → Option M) → M → List ℕ → Option M
  unfolding store_all
  parse store m bs = Option.bind (codec.fields bs) (λ fs. store_all store m fs)

  abbrev pub shape_there : Option ImageShape → ImageShape
  shape_there none = zero_shape
  shape_there (some s) = s

  unfoldable pub store_request : RequestMessage → Field → Option RequestMessage
  unfolding checked parse store_shape
  store_request m (varint n v) = some m
  store_request m (chunk n s) =
      if n == 1
      then checked s (record m { sn = s })
      else if n == 2
      then Option.bind (parse store_shape (shape_there m.image_shape) s)
          (λ t. some (record m { has_image_shape = true; image_shape = some t }))
      else some m

  unfoldable pub store_body : List ℕ → Field → Option (List ℕ)
  store_body content (varint n v) = some content
  store_body content (chunk n s) = if n == 1 then some s else some content

  unfoldable pub store_entry : CameraMeta → List ℕ × List ℕ → Option CameraMeta
  unfolding checked
  store_entry m (k, v) =
      if codec.is_utf8 k then checked v (record m { info = insert k v m.info }) else none

  unfoldable pub store_meta : CameraMeta → Field → Option CameraMeta
  unfolding checked store_entry
  store_meta m (varint n v) = some m
  store_meta m (chunk n s) =
      if n == 1
      then checked s (record m { serial_number = s })
      else if n == 2
      then checked s (record m { model_name = s })
      else if n == 3
      then checked s (record m { manufacture_name = s })
      else if n == 4
      then checked s (record m { device_version = s })
      else if n == 5
      then checked s (record m { user_defined_name = s })
      else if n == 6
      then checked s (record m { camera_type = s })
      else if n == 7
      then Option.bind (codec.entry_of s) (λ e. store_entry m e)
      else some m

  unfoldable pub store_metas : List CameraMeta → Field → Option (List CameraMeta)
  unfolding parse store_meta
  store_metas l (varint n v) = some l
  store_metas l (chunk n s) =
      if n == 1
      then Option.bind (parse store_meta empty_meta s) (λ m. some (l ++ (m ∷ [])))
      else some l
