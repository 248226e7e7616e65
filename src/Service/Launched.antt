-- ===== src/Service/Launched.antt =====
-- From the command line to the running service: `main` (main.go), `LoadConfig` (config/config.go),
-- and `NewService`, `Run` and `RunAsService` (pkg/service/service.go). Parameters are the command
-- line's parser, the file system, the TOML decoder, and the CSV reader. `Run` is followed up to the signal that
-- stops the service; the texts that `main` prints are left out.
pub mod Exits
use Prim.Native.Char.{Char}
use mbsscaner.Prelude.{
  ℕ, String, List, Bool, true, false, Option, none, some, ◌⊎◌, inl, inr, if◌then◌else◌,
}
use mbsscaner.Config.Types.{ModbusDevice, Point}
use mbsscaner.Config.Settings.{AppConfig, ConfigError, validate}
use mbsscaner.Logger.{Core, new_logger}
use mbsscaner.Modbus.Result.{Result, ok, err, panics, Reply, reply, refused, Error}
use mbsscaner.Modbus.Client.{Client}
use mbsscaner.Service.Files.{file_points}
use mbsscaner.Service.{Registry, Polling, init, start}

-- The errors that `RunAsService` wraps.
pub data StartError : Type 0 where
  not_decoded no_logger not_initialized : Error → StartError
  invalid_config : ConfigError → StartError

-- The result of a function of this file: a value, an error, or a run-time panic.
pub data Launch (A : Type 0) : Type 0 where
  launched : A → Launch A
  failed : StartError → Launch A
  crashed : Launch A

-- `if err != nil { return err }`.
abbrev pub then_launch : {A B : Type 0} → Launch A → (A → Launch B) → Launch B
then_launch (launched a) f = f a
then_launch (failed e) f = failed e
then_launch crashed f = crashed

-- What the command line asks for.
pub record Flags : Type 0 where
  pub config : String
  pub version : Bool
  pub help : Bool

-- `ModbusService` after `NewService`: the configuration that `Validate` left, and the logger.
pub record Service : Type 0 where
  pub config : AppConfig
  pub logger : List Core

unfoldable pub after_validate : Option ConfigError × AppConfig → Launch AppConfig
after_validate (some e, c) = failed (invalid_config e)
after_validate (none, c) = launched c

unfoldable pub after_decode : Reply AppConfig → Launch AppConfig
unfolding after_validate validate
after_decode (refused e) = failed (not_decoded e)
after_decode (reply c) = after_validate (validate c)

unfoldable pub after_logger :
    {Files : Type 0} → AppConfig → Result (List Core) × Files → Launch Service
after_logger c (ok cores, fs) = launched (record { config = c; logger = cores })
after_logger c (err e, fs) = failed (no_logger e)
after_logger c (panics, fs) = crashed

unfoldable pub after_init : {Conn : Type 0} → Result (Registry Conn) → Launch (Registry Conn)
after_init (ok s) = launched s
after_init (err e) = failed (not_initialized e)
after_init panics = crashed

-- The parts of the system that `main` runs on.
pub record Host : Type 1 where
  pub Files : Type 0
  pub exists : String → Bool
  pub absolute : String → Reply String
  pub decode : String → Reply AppConfig
  pub lower_rune : Char → Char
  pub mkdir_all : String → Files → Reply (Unit {0}) × Files
  pub client : Client
  pub new_client : ModbusDevice → Reply client.Conn
  pub parse_float : String → Option ℕ
  pub read_csv : String → Option (List (List String))

-- The status that the process ends with, or the service that it runs until a signal.
pub data Process (Conn : Type 0) : Type 0 where
  exits : ℕ → Process Conn
  serves : Registry Conn → List (Polling Conn) → Process Conn
  panicked : Process Conn

module _ (host : Host) where
  open host use {
    Files, exists, absolute, decode, lower_rune, mkdir_all, client, new_client, parse_float,
    read_csv,
  }
  open client use {Conn}

  -- `LoadPoints` of this host.
  abbrev pub loader : String → Reply (List Point)
  loader = file_points lower_rune parse_float read_csv

  unfoldable pub load_config : String → Launch AppConfig
  unfolding after_decode
  load_config file = after_decode (decode file)

  unfoldable pub new_service : String → Files → Launch Service
  unfolding load_config after_logger new_logger
  new_service file fs =
      then_launch (load_config file)
        λ c. after_logger c (new_logger lower_rune mkdir_all c.logger fs)

  -- `Init`, then `Start`, which returns no error.
  unfoldable pub run : Service → Launch (Registry Conn × List (Polling Conn))
  unfolding after_init init start
  run s =
      then_launch (after_init (init client new_client loader s.config.devices))
        λ r. launched (r, start client new_client loader s.config.devices r)

  unfoldable pub run_as_service : String → Files → Launch (Registry Conn × List (Polling Conn))
  unfolding new_service run
  run_as_service file fs = then_launch (new_service file fs) run

  -- An error is printed, and `os.Exit(1)` follows.
  unfoldable pub exit_code : Launch (Registry Conn × List (Polling Conn)) → Process Conn
  exit_code (launched (r, ps)) = serves r ps
  exit_code (failed e) = exits 1
  exit_code crashed = panicked

  unfoldable pub after_absolute : Reply String → Files → Process Conn
  unfolding exit_code run_as_service
  after_absolute (refused e) fs = exits 1
  after_absolute (reply path) fs = exit_code (run_as_service path fs)

  unfoldable pub main : Flags → Files → Process Conn
  unfolding after_absolute
  main flags fs =
      if flags.version
      then exits 0
      else if flags.help
      then exits 0
      else if exists flags.config
      then after_absolute (absolute flags.config) fs
      else exits 1
