-- ===== src/Main.antt =====
-- src/main.cc, with `init_logs` and `set_log_level` of src/utils-logs.cpp: what the program does
-- with its command line and its configuration. The parser of the command line is not modelled: what
-- it gives is an argument. The calls of the logging library and the start of the server are values.
pub mod Runs
mod Tests
use grpc_cplugplug_example.Base.{
  ℕ, Bool, Option, none, some, List, [], ◌∷◌, ◌++◌, if◌then◌else◌, Result, ok, ◌>>=◌,
}
use grpc_cplugplug_example.Base.Int.{ℤ, pos, negsuc, nonzero}
use grpc_cplugplug_example.Text.{path_join}
use grpc_cplugplug_example.Provider.Map.{text_eq}
use grpc_cplugplug_example.Provider.Metas.{bytes_of}
use grpc_cplugplug_example.Config.{Yaml, GrpcService, CameraServiceConfig, load_config}

-- The levels of spdlog.
pub data Level : Type 0 where
  trace debug info warn err critical off : Level

-- What the program asks for. A log file is opened with its path and whether the console is written
-- as well.
pub data Action : Type 0 where
  open_log : List ℕ → Bool → Action
  set_level : Level → Action
  start_server : GrpcService → Action

-- What the parser of the command line gives.
pub record Options : Type 0 where
  pub loglevel : List ℕ
  pub file_name : List ℕ
  pub logpath : List ℕ
  pub version_exist : Bool
  pub console_exist : Bool

unfoldable pub set_log_level : List ℕ → Level
set_log_level level =
    if text_eq level (bytes_of "trace")
    then trace
    else if text_eq level (bytes_of "debug")
    then debug
    else if text_eq level (bytes_of "info")
    then info
    else if text_eq level (bytes_of "warn")
    then warn
    else if text_eq level (bytes_of "error")
    then err
    else if text_eq level (bytes_of "fatal")
    then critical
    else if text_eq level (bytes_of "none")
    then off
    else info

-- `mkpath` is what `mkpath_if_not_exist` gives.
unfoldable pub init_logs : (List ℕ → Bool) → List ℕ → Bool → Result (List Action)
init_logs mkpath logpath console =
    if mkpath logpath
    then (path_join logpath (bytes_of "camera-service.log") >>= λ full.
        ok (open_log full console ∷ set_level info ∷ []))
    else ok []

unfoldable pub log_path : Options → CameraServiceConfig → List ℕ
log_path o c =
    if text_eq o.logpath []
    then if text_eq c.logs.base [] then bytes_of "./logs" else c.logs.base
    else o.logpath

unfoldable pub log_level : Options → CameraServiceConfig → List ℕ
log_level o c = if text_eq o.loglevel [] then c.logs.level else o.loglevel

-- `main` behind `load_config`.
unfoldable pub configured_run :
    (List ℕ → Bool) → Options → ℤ × CameraServiceConfig → Result (ℤ × List Action)
unfolding init_logs log_path log_level set_log_level
configured_run mkpath o (ret, c) =
    if nonzero ret
    then ok (negsuc 0, [])
    else (init_logs mkpath (log_path o c) o.console_exist >>= λ logs.
        ok (
          pos 0,
          logs ++ (set_level (set_log_level (log_level o c)) ∷ start_server c.service ∷ []),
        ))

-- `main`, for what the parser gives: `none` for an error in the command line. The object `config` has
-- no value before it is loaded, so it is an argument.
unfoldable pub main :
    Yaml → (List ℕ → Bool) → Option Options → CameraServiceConfig → Result (ℤ × List Action)
main yaml mkpath none config = ok (negsuc 0, [])
main yaml mkpath (some o) config =
    if o.version_exist
    then ok (pos 0, [])
    else if text_eq o.file_name []
    then ok (negsuc 0, [])
    else configured_run mkpath o (load_config yaml o.file_name config)
