-- ===== src/Logger.antt =====
-- `NewLogger` and `NewProductionLogger` of pkg/logger/logger.go: the cores that a logger writes to.
-- `os.MkdirAll` is a parameter, which acts on the file system. The zap library's encoders, and the
-- options that add the caller and the stack trace, are left out.
pub mod Writes
pub mod Folder
use Prim.Native.Char.{Char, code}
use mbsscaner.Prelude.{
  ℕ, ℤ, pos, String, str_eq, List, [], ◌∷◌, ◌++◌, Bool, true, false, ◌||◌, Option, none, some, ◌==◌,
  if◌then◌else◌,
}
use mbsscaner.Config.Text.{to_lower}
use mbsscaner.Config.Settings.{LoggerConfig}
use mbsscaner.Modbus.Result.{Result, M, ◌>>=◌, return, call, Reply}

-- The levels of zapcore, from the least severe to the most.
pub data Level : Type 0 where
  debug info warn error panic_level fatal : Level

-- `lumberjack.Logger`.
pub record Rolling : Type 0 where
  pub filename : String
  pub max_size : ℤ
  pub max_backups : ℤ
  pub max_age : ℤ
  pub compress : Bool

pub data Sink : Type 0 where
  stdout stderr : Sink
  file : Rolling → Sink

-- `NewConsoleEncoder` and `NewJSONEncoder`.
pub data Encoder : Type 0 where
  console json : Encoder

-- `zapcore.NewCore`: the least level that it writes, in which form and where.
pub record Core : Type 0 where
  pub encoder : Encoder
  pub sink : Sink
  pub level : Level

-- A character before what is left of the text behind it.
abbrev pub with_char : Char → Option String → Option String
with_char c none = if code c == b'/' then some "" else none
with_char c (some dir) = some (String.◌∷◌ c dir)

-- `filename[:lastSlash]`, if there is a slash.
unfoldable pub before_last_slash : String → Option String
before_last_slash String.[] = none
before_last_slash (String.◌∷◌ c s) = with_char c (before_last_slash s)

abbrev pub or_here : Option String → String
or_here none = "."
or_here (some dir) = dir

unfoldable pub get_log_dir : String → String
unfolding before_last_slash
get_log_dir filename = or_here (before_last_slash filename)

-- `if filename == "" { filename = … }`.
unfoldable pub log_file : String → String
log_file filename = if str_eq filename "" then "logs/mbsscaner.log" else filename

-- Where `strings.ToLower(config.Output)` sends the log.
pub data Output : Type 0 where
  to_console to_file to_both : Output

module _ (lower_rune : Char → Char) where
  unfoldable pub parse_log_level : String → Level
  unfolding to_lower
  parse_log_level level =
      let name = to_lower lower_rune level in
      if str_eq name "debug"
      then debug
      else if str_eq name "info"
      then info
      else if str_eq name "warn" || str_eq name "warning"
      then warn
      else if str_eq name "error"
      then error
      else if str_eq name "fatal"
      then fatal
      else if str_eq name "panic"
      then panic_level
      else info

  unfoldable pub output_of : String → Output
  unfolding to_lower
  output_of output =
      let name = to_lower lower_rune output in
      if str_eq name "stdout" || str_eq name "console"
      then to_console
      else if str_eq name "file"
      then to_file
      else if str_eq name "both"
      then to_both
      else to_console

abbrev pub console_core : Level → Core
console_core level = record { encoder = console; sink = stdout; level = level }

-- The core of the rolling file, with the name that stands in for an empty one.
unfoldable pub file_core : LoggerConfig → Level → Core
unfolding log_file
file_core config level = record {
  encoder = json;
  sink = file (record {
    filename = log_file config.filename;
    max_size = config.max_size;
    max_backups = config.max_backups;
    max_age = config.max_age;
    compress = config.compress;
  });
  level = level;
}

abbrev pub error_core : Core
error_core = record { encoder = json; sink = stderr; level = error }

module _ (lower_rune : Char → Char) {Files : Type 0}
    (mkdir_all : String → Files → Reply (Unit {0}) × Files) where
  -- The `switch` on the output, and the core for errors behind it.
  unfoldable pub cores_for : Output → LoggerConfig → Level → M Files (List Core)
  unfolding file_core get_log_dir log_file
  cores_for to_console config level = return (console_core level ∷ [])
  cores_for to_file config level = do
    _ ← call (mkdir_all (get_log_dir (log_file config.filename)))
    return (file_core config level ∷ error_core ∷ [])
  cores_for to_both config level = do
    _ ← call (mkdir_all (get_log_dir (log_file config.filename)))
    return (console_core level ∷ file_core config level ∷ error_core ∷ [])

  unfoldable pub new_logger : LoggerConfig → M Files (List Core)
  unfolding cores_for output_of parse_log_level
  new_logger config =
      cores_for (output_of lower_rune config.output) config
        (parse_log_level lower_rune config.level)

  unfoldable pub new_production_logger : String → M Files (List Core)
  unfolding get_log_dir log_file
  new_production_logger filename = do
    _ ← call (mkdir_all (get_log_dir (log_file filename)))
    return (
        record {
          encoder = json;
          sink = file (record {
            filename = log_file filename;
            max_size = pos 100;
            max_backups = pos 3;
            max_age = pos 28;
            compress = true;
          });
          level = info;
        }
        ∷ [])
