-- ===== src/Logger.antt =====
-- pkg/logger/logger.go: the levels, the settings of a logger and the fields that it adds. What is
-- written is left to log/slog.
use single_proxy.Base.{
  ℕ, Str, codes, List, [], ◌∷◌, ◌++◌, Bool, false, Option, none, some, ◌==◌, str_key, leb, to_lower,
  if◌then◌else◌, ◌||◌,
}
use single_proxy.Config.Types.{Config}

-- slog.Level
pub data Level : Type 0 where
  level_debug level_info level_warn level_error : Level

-- The numbers of the levels, from -4 in steps of 4 in log/slog, counted from 0 here.
abbrev pub severity : Level → ℕ
severity level_debug = 0
severity level_info = 4
severity level_warn = 8
severity level_error = 12

unfoldable pub parse_log_level : Str → Level
parse_log_level text =
    let name = to_lower text in
    if name == codes "debug"
    then level_debug
    else if name == codes "info"
    then level_info
    else if name == codes "warn" || name == codes "warning"
    then level_warn
    else if name == codes "error"
    then level_error
    else level_info

-- Logger: its level, whether it writes JSON, the file if not the standard output, and its fields.
pub record Logger : Type 0 where
  pub level : Level
  pub json : Bool
  pub file : Option Str
  pub fields : List (Str × Str)

abbrev make_logger : Config → Option Str → Logger
make_logger cfg file = record {
  level = parse_log_level cfg.log_level;
  json = to_lower cfg.log_format == codes "json";
  file = file;
  fields = [];
}

-- InitLogger, for whether the directory of a file can be made and the file opened; `none` is an
-- error.
unfoldable pub init_logger : (Str → Bool) → (Str → Bool) → Config → Option Logger
unfolding parse_log_level
init_logger makes_dir opens cfg =
    if cfg.log_file == []
    then some (make_logger cfg none)
    else if makes_dir cfg.log_file
    then if opens cfg.log_file then some (make_logger cfg (some cfg.log_file)) else none
    else none

-- GetLogger
unfoldable pub get_logger : Option Logger → Logger
get_logger none = record { level = level_info; json = false; file = none; fields = [] }
get_logger (some l) = l

unfoldable pub with_fields : List (Str × Str) → Logger → Logger
with_fields fields l = record l { fields = l.fields ++ fields }

unfoldable pub with_field : Str → Str → Logger → Logger
with_field key field l = record l { fields = l.fields ++ (key, field) ∷ [] }

-- The methods of slog.Logger that write a message, which filter it by the level of the logger.
pub record Slog (World : Type 0) : Type 0 where
  pub write : Logger → Level → Str → List (Str × Str) → World → World

-- What a program that logs has: globalLogger and the rest of the world.
module _ {World : Type 0} (slog : Slog World) where
  -- A message for the global logger, which GetLogger makes where there is none.
  unfoldable pub log_global :
      Level → Str → List (Str × Str) → Option Logger × World → Option Logger × World
  unfolding get_logger
  log_global level msg args (global, w) =
      (some (get_logger global), slog.write (get_logger global) level msg args w)

  -- Debug, Info, Warn and Error
  unfoldable pub debug : Str → List (Str × Str) → Option Logger × World → Option Logger × World
  unfolding log_global
  debug msg args st = log_global level_debug msg args st

  unfoldable pub info : Str → List (Str × Str) → Option Logger × World → Option Logger × World
  unfolding log_global
  info msg args st = log_global level_info msg args st

  unfoldable pub warn : Str → List (Str × Str) → Option Logger × World → Option Logger × World
  unfolding log_global
  warn msg args st = log_global level_warn msg args st

  unfoldable pub error : Str → List (Str × Str) → Option Logger × World → Option Logger × World
  unfolding log_global
  error msg args st = log_global level_error msg args st

  -- The method Fatal: the exit code, and the world in which the program ends.
  unfoldable pub log_fatal : Logger → Str → List (Str × Str) → World → ℕ × World
  log_fatal l msg args w = (1, slog.write l level_error msg args w)

  -- The function Fatal
  unfoldable pub fatal : Str → List (Str × Str) → Option Logger × World → ℕ × World
  unfolding log_fatal get_logger
  fatal msg args (global, w) = log_fatal (get_logger global) msg args w

-- The functions WithFields and WithField
unfoldable pub global_with_fields : List (Str × Str) → Option Logger → Logger
unfolding with_fields get_logger
global_with_fields fields global = with_fields fields (get_logger global)

unfoldable pub global_with_field : Str → Str → Option Logger → Logger
unfolding with_field get_logger
global_with_field key field global = with_field key field (get_logger global)

unfoldable pub request_logger : Str → Str → Str → Str → Option Logger → Logger
unfolding with_fields get_logger
request_logger request_id client_ip method path global =
    with_fields
      ((codes "request_id", request_id)
        ∷ (codes "client_ip", client_ip)
        ∷ (codes "method", method)
        ∷ (codes "path", path)
        ∷ [])
      (get_logger global)

unfoldable pub tunnel_logger : Str → Str → Option Logger → Logger
unfolding with_fields get_logger
tunnel_logger key client_addr global =
    with_fields
      ((codes "tunnel_key", key)
        ∷ (codes "client_addr", client_addr)
        ∷ (codes "component", codes "tunnel")
        ∷ [])
      (get_logger global)

unfoldable pub is_debug_enabled : Logger → Bool
is_debug_enabled l = leb (severity l.level) (severity level_debug)

unfoldable pub is_info_enabled : Logger → Bool
is_info_enabled l = leb (severity l.level) (severity level_info)
