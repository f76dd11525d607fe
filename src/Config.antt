-- ===== src/Config.antt =====
-- src/camera_service_config.cc: the configuration file. The YAML library is the parameter `yaml`.
pub mod Loading
mod Tests
use Prim.Native.String.{String}
use grpc_cplugplug_example.Base.{ℕ, Bool, true, false, Option, none, some, List, if◌then◌else◌}
use grpc_cplugplug_example.Base.Int.{ℤ, pos, negsuc}
use grpc_cplugplug_example.Provider.Metas.{bytes_of}

-- `none` stands for an exception of the call.
pub record Yaml : Type 1 where
  pub Node : Type 0
  pub load_file : List ℕ → Option Node
  pub at : Node → String → Option Node
  pub is_defined : Node → Bool
  pub as_int : Node → Option ℤ
  pub as_string : Node → Option (List ℕ)

pub record LogConfig : Type 0 where
  pub base : List ℕ
  pub level : List ℕ

pub record GrpcService : Type 0 where
  pub host : List ℕ
  pub port : ℤ

pub record CameraServiceConfig : Type 0 where
  pub service : GrpcService
  pub logs : LogConfig

unfoldable pub load_default_config : CameraServiceConfig → CameraServiceConfig
load_default_config c = record {
  service = record { host = bytes_of "localhost"; port = pos 45575 };
  logs = record { base = bytes_of "./logs"; level = bytes_of "error" };
}

-- What a reader leaves in its object, behind whether an exception ended it.
abbrev pub Outcome {ℓ} : Type ℓ → Type ℓ
Outcome C = Bool × C

unfoldable pub and_then {ℓ} : {C : Type ℓ} → Outcome C → (C → Outcome C) → Outcome C
and_then (true, c) f = (true, c)
and_then (false, c) f = f c

module _ (yaml : Yaml) where
  unfoldable pub read_value {ℓ ℓ'} :
      {C : Type ℓ} {V : Type ℓ'} → Option V → (V → C → C) → C → Outcome C
  read_value none put c = (true, c)
  read_value (some v) put c = (false, put v c)

  -- `Node n = data[key]; if (n) …`
  unfoldable pub read_node {ℓ} :
      {C : Type ℓ} → Option yaml.Node → (yaml.Node → C → Outcome C) → C → Outcome C
  read_node none f c = (true, c)
  read_node (some n) f c = if yaml.is_defined n then f n c else (false, c)

  unfoldable pub read_provider_config :
      yaml.Node → CameraServiceConfig → Outcome CameraServiceConfig
  unfolding read_node
  read_provider_config node c = read_node (yaml.at node "port") (λ n c'. (false, c')) c

  unfoldable pub read_logs_config : yaml.Node → LogConfig → Outcome LogConfig
  unfolding and_then read_node read_value
  read_logs_config node c =
      and_then
        (read_node (yaml.at node "base")
          (λ n. read_value (yaml.as_string n) (λ v c'. record c' { base = v })) c)
        (read_node (yaml.at node "level")
          (λ n. read_value (yaml.as_string n) (λ v c'. record c' { level = v })))

  unfoldable pub read_service_config : yaml.Node → GrpcService → Outcome GrpcService
  unfolding and_then read_node read_value
  read_service_config node c =
      and_then
        (read_node (yaml.at node "port")
          (λ n. read_value (yaml.as_int n) (λ v c'. record c' { port = v })) c)
        (read_node (yaml.at node "host")
          (λ n. read_value (yaml.as_string n) (λ v c'. record c' { host = v })))

  -- A reader of a part of the configuration.
  unfoldable pub on_logs : Outcome LogConfig → CameraServiceConfig → Outcome CameraServiceConfig
  on_logs r c = (r.0, record c { logs = r.1 })

  unfoldable pub on_service :
      Outcome GrpcService → CameraServiceConfig → Outcome CameraServiceConfig
  on_service r c = (r.0, record c { service = r.1 })

  -- The three readers. Each of them does nothing with a node that is not defined.
  unfoldable pub read_camera_service : yaml.Node → CameraServiceConfig → Outcome CameraServiceConfig
  unfolding and_then read_node read_provider_config on_logs on_service
  read_camera_service node c =
      and_then
        (and_then (read_node (yaml.at node "provider") read_provider_config c)
          (read_node (yaml.at node "logs") (λ n c'. on_logs (read_logs_config n c'.logs) c')))
        (read_node (yaml.at node "service")
          (λ n c'. on_service (read_service_config n c'.service) c'))

  unfoldable pub load_document :
      Option yaml.Node → CameraServiceConfig → Outcome CameraServiceConfig
  load_document none c = (true, c)
  load_document (some node) c = read_node (yaml.at node "camera-service") read_camera_service c

  unfoldable pub load_config : List ℕ → CameraServiceConfig → ℤ × CameraServiceConfig
  load_config filename c =
      let r = load_document (yaml.load_file filename) (load_default_config c) in
      (if r.0 then negsuc 0 else pos 0, r.1)
