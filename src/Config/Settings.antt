-- ===== src/Config/Settings.antt =====
-- `Config` and its `Validate` (config/config.go). `Validate` changes the configuration in place
-- and returns an error or nil: here it returns both. The text of the TOML file and its decoder are
-- left out; `Int` fields are integers.
pub mod Defaults
pub mod Filled
use mbsscaner.Prelude.{
  ℕ, zero, suc, ◌+◌, ℤ, pos, negsuc, String, str_eq, List, [], ◌∷◌, Bool, true, false, ◌||◌, not,
  Option, none, some, leb, ltb, if◌then◌else◌,
}
use mbsscaner.Config.Types.{ModbusDevice}

pub record KafkaConfig : Type 0 where
  pub enable : Bool
  pub brokers : List String
  pub topic : String
  pub compression : String
  pub batch_size : ℤ
  pub flush_frequency : ℤ

pub record LoggerConfig : Type 0 where
  pub level : String
  pub output : String
  pub filename : String
  pub max_size : ℤ
  pub max_backups : ℤ
  pub max_age : ℤ
  pub compress : Bool

pub record ServiceConfig : Type 0 where
  pub name : String
  pub display_name : String
  pub description : String

pub record HttpConfig : Type 0 where
  pub enable : Bool
  pub addr : String

pub record AppConfig : Type 0 where
  pub devices : List ModbusDevice
  pub kafka : KafkaConfig
  pub logger : LoggerConfig
  pub service : ServiceConfig
  pub http : HttpConfig

pub data ConfigError : Type 0 where
  no_devices no_brokers empty_topic : ConfigError
  empty_name : ℕ → ConfigError
  empty_host invalid_port empty_points_file : String → ConfigError

-- `z > 0`.
unfoldable pub is_positive : ℤ → Bool
is_positive (pos zero) = false
is_positive (pos (suc n)) = true
is_positive (negsuc n) = false

-- `port <= 0 || port > 65535`.
unfoldable pub is_bad_port : ℤ → Bool
is_bad_port (pos zero) = true
is_bad_port (pos (suc n)) = ltb 65535 (suc n)
is_bad_port (negsuc n) = true

-- `if s == "" { s = d }` and `if z <= 0 { z = d }`.
unfoldable pub default_text : String → String → String
default_text s d = if str_eq s "" then d else s

unfoldable pub default_int : ℤ → ℕ → ℤ
unfolding is_positive
default_int z d = if is_positive z then z else pos d

-- The loop over the devices at index i. It sets missing timeouts and intervals on its own copy of
-- the device, which is then dropped.
unfoldable pub check_devices : ℕ → List ModbusDevice → Option ConfigError
unfolding is_bad_port
check_devices i [] = none
check_devices i (d ∷ ds) =
    let rest = check_devices (i + 1) ds in
    if str_eq d.name ""
    then some (empty_name i)
    else if str_eq d.host ""
    then some (empty_host d.name)
    else if is_bad_port d.port
    then some (invalid_port d.name)
    else if str_eq d.points_file ""
    then some (empty_points_file d.name)
    else rest

unfoldable pub validate_devices : List ModbusDevice → Option ConfigError
unfolding check_devices
validate_devices [] = some no_devices
validate_devices (d ∷ ds) = check_devices 0 (d ∷ ds)

is_empty : List String → Bool
is_empty [] = true
is_empty (x ∷ xs) = false

unfoldable pub check_kafka : KafkaConfig → Option ConfigError
unfolding is_empty
check_kafka k =
    if k.enable
    then if is_empty k.brokers
      then some no_brokers
      else if str_eq k.topic ""
      then some empty_topic
      else none
    else none

unfoldable pub default_kafka : KafkaConfig → KafkaConfig
unfolding default_int
default_kafka k =
    if k.enable
    then record k {
      batch_size = default_int k.batch_size 100;
      flush_frequency = default_int k.flush_frequency 100;
    }
    else k

unfoldable pub default_logger : LoggerConfig → LoggerConfig
unfolding default_text default_int
default_logger l = record l {
  level = default_text l.level "info";
  output = default_text l.output "stdout";
  max_size = default_int l.max_size 100;
  max_backups = default_int l.max_backups 3;
  max_age = default_int l.max_age 28;
}

unfoldable pub default_service : ServiceConfig → ServiceConfig
unfolding default_text
default_service s = record {
  name = default_text s.name "mbsscaner";
  display_name = default_text s.display_name "MBS Scanner";
  description = default_text s.description "Modbus Data Scanner Service";
}

unfoldable pub fill_defaults : AppConfig → AppConfig
unfolding default_kafka default_logger default_service
fill_defaults c = record c {
  kafka = default_kafka c.kafka;
  logger = default_logger c.logger;
  service = default_service c.service;
}

-- An error returns before anything is changed.
unfoldable pub after_checks :
    Option ConfigError → Option ConfigError → AppConfig → Option ConfigError × AppConfig
unfolding fill_defaults
after_checks (some e) k c = (some e, c)
after_checks none (some e) c = (some e, c)
after_checks none none c = (none, fill_defaults c)

unfoldable pub validate : AppConfig → Option ConfigError × AppConfig
unfolding after_checks validate_devices check_kafka
validate c = after_checks (validate_devices c.devices) (check_kafka c.kafka) c
