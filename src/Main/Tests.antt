-- ===== src/Main/Tests.antt =====
-- A run with a log folder from the command line and the level of the configuration.
use grpc_cplugplug_example.Base.{ℕ, Bool, true, false, none, some, List, [], ◌∷◌}
use grpc_cplugplug_example.Base.Int.{pos}
use grpc_cplugplug_example.Config.{Yaml, CameraServiceConfig}
use grpc_cplugplug_example.Main.{Options}

-- A file with a node that is not defined.
abbrev empty_file : Yaml
empty_file = record {
  Node = ℕ;
  load_file = λ f. some 0;
  at = λ n key. some 1;
  is_defined = λ n. false;
  as_int = λ n. none;
  as_string = λ n. none;
}

abbrev some_options : Options
some_options = record {
  loglevel = [];
  file_name = b'c' ∷ [];
  logpath = b'/' ∷ b'l' ∷ [];
  version_exist = false;
  console_exist = true;
}

abbrev blank_config : CameraServiceConfig
blank_config = record {
  service = record { host = []; port = pos 0 };
  logs = record { base = []; level = [] };
}

abbrev any_folder : List ℕ → Bool
any_folder path = true
