-- ===== src/Config/Tests.antt =====
-- A document with an entry under every key of its first three levels.
use grpc_cplugplug_example.Base.{ℕ, ◌+◌, some, [], ◌∷◌, ltb}
use grpc_cplugplug_example.Base.Int.{pos}
use grpc_cplugplug_example.Config.{Yaml, CameraServiceConfig, load_default_config, load_config}
use grpc_cplugplug_example.Config.Loading.{required, Loads, load_config-configured}

-- A node is its level.
abbrev three_levels : Yaml
three_levels = record {
  Node = ℕ;
  load_file = λ f. some 0;
  at = λ n key. some (n + 1);
  is_defined = λ n. ltb n 4;
  as_int = λ n. some (pos 7000);
  as_string = λ n. some (b'h' ∷ []);
}

abbrev empty_config : CameraServiceConfig
empty_config = record {
  service = record { host = []; port = pos 0 };
  logs = record { base = []; level = [] };
}

load_config-configured_example :
    Loads three_levels
      (load_config three_levels (b'c' ∷ []) empty_config)
      (required three_levels (b'c' ∷ []) (load_default_config empty_config))
load_config-configured_example =
    load_config-configured three_levels (b'c' ∷ []) empty_config empty_config
