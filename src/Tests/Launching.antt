-- ===== src/Tests/Launching.antt =====
-- Start-up, logger and points files at concrete inputs.
use mbsscaner.Prelude.{
  ℕ, ℤ, ◌+◌, ◌≡◌, ◌≢◌, refl, arith, String, str_eq, List, [], ◌∷◌, Option, none, some, false,
  if◌then◌else◌, All, map,
}
use mbsscaner.Config.Types.{
  Point, DataType, RegisterType, is_valid_data_type, is_valid_register_type, little,
}
use mbsscaner.Config.Text.{trim}
use mbsscaner.Config.Points.{validate_points}
use mbsscaner.Config.Load.{parsed, load_points}
use mbsscaner.Config.Load.Formed.{IsFormed, load_points-IsFormed}
use mbsscaner.Config.Load.Printed.{columns, row, IsPrintable, load_points-row}
use mbsscaner.Modbus.Loaded.{validated_never_panics}
use mbsscaner.Modbus.Parse.{parse_registers_for_point}
use mbsscaner.Modbus.Result.{panics, Reply, reply}
use mbsscaner.Modbus.Methods
use mbsscaner.Modbus.ByteOrder
use mbsscaner.Modbus.Methods.Same.{methods_same}
use mbsscaner.Service.Files.{file_points}
use mbsscaner.Service.Launched.{Flags, Host, Process, serves, exits, main}
use mbsscaner.Service.Launched.Exits.{Behaves, main-Behaves}
use mbsscaner.Tests.Devices.{answering}
use mbsscaner.Tests.Files.{same_rune}
use mbsscaner.Tests.Grouping.{plant}
use mbsscaner.Tests.Running.{clients}
use mbsscaner.Tests.Settings.{bare}

-- A point, as a file has it.
abbrev flow : Point
flow = record {
  name = "flow";
  address = 65535;
  data_type = DataType.uint16;
  register_type = RegisterType.input_register;
  length = 1;
  scale = 0x3ff0_0000_0000_0000;
  unit = "l/s";
  description = "Main line";
}

-- The texts of one float.
abbrev text_of_one : ℕ → String
text_of_one bits = "1.0"

abbrev one_of_text : String → Option ℕ
one_of_text s = if str_eq s "1.0" then some 0x3ff0_0000_0000_0000 else none

flow-IsPrintable : IsPrintable same_rune one_of_text text_of_one flow
unfolding trim is_valid_data_type is_valid_register_type
flow-IsPrintable = record {
  has_name = tt;
  name_trimmed = refl;
  unit_trimmed = refl;
  description_trimmed = refl;
  address_bound = omega arith;
  length_bound = omega arith;
  known_data_type = refl;
  known_register_type = refl;
  scale_text = tt;
  scale_trimmed = refl;
  scale_read = refl;
}

load_points-row_example :
    load_points same_rune one_of_text
      (some (columns ∷ map (row same_rune one_of_text text_of_one) (flow ∷ flow ∷ [])))
    ≡ parsed (flow ∷ flow ∷ [])
load_points-row_example =
    load_points-row same_rune one_of_text text_of_one flow (flow ∷ [])
      (flow-IsPrintable, (flow-IsPrintable, tt))

flow_loads :
    load_points same_rune one_of_text
      (some (columns ∷ row same_rune one_of_text text_of_one flow ∷ []))
    ≡ parsed (flow ∷ [])
flow_loads = load_points-row same_rune one_of_text text_of_one flow [] (flow-IsPrintable, tt)

load_points-IsFormed_example : All IsFormed (flow ∷ []) × ((flow ∷ []) ≢ [])
load_points-IsFormed_example =
    load_points-IsFormed same_rune one_of_text
      (some (columns ∷ row same_rune one_of_text text_of_one flow ∷ [])) (flow ∷ []) flow_loads

plant_is_valid : validate_points plant ≡ none
unfolding validate_points
plant_is_valid = refl

validated_never_panics_example :
    All (λ p. parse_registers_for_point little p (1 ∷ []) ≢ panics) plant
validated_never_panics_example = validated_never_panics plant little (1 ∷ []) plant_is_valid

-- A file system that counts the folders that it made.
abbrev folders : String → ℕ → Reply (Unit {0}) × ℕ
folders name n = (reply tt, n + 1)

-- The rows of the one file that can be read.
abbrev rows : String → Option (List (List String))
rows name =
    if str_eq name "plc.csv"
    then some (
        ("name" ∷ "address" ∷ "data_type" ∷ "register_type" ∷ [])
        ∷ ("flow" ∷ "65535" ∷ "UINT16" ∷ "input_register" ∷ [])
        ∷ [])
    else none

abbrev machine : Host
machine = record {
  Files = ℕ;
  exists = λ name. str_eq name "config.toml";
  absolute = λ name. reply name;
  decode = λ name. reply bare;
  lower_rune = same_rune;
  mkdir_all = folders;
  client = answering;
  new_client = clients;
  parse_float = one_of_text;
  read_csv = rows;
}

abbrev ordinary : Flags
ordinary = record { config = "config.toml"; version = false; help = false }

-- The device of the configuration is served and polled.
abbrev served_devices : Process ℕ → List String
served_devices (serves r ps) = map (λ p. p.device) ps
served_devices _ = []

serves_plc : served_devices (main machine ordinary 0) ≡ "plc" ∷ []
unfolding main file_points
serves_plc = refl

misspelt : main machine (record ordinary { config = "confg.toml" }) 0 ≡ exits 1
unfolding main
misspelt = refl

main-Behaves_example : Behaves machine ordinary (main machine ordinary 0)
main-Behaves_example = main-Behaves machine ordinary 0

methods_same_example :
    ((bytes registers : List ℕ)
      → Methods.put_bytes_with_order bytes registers little
        ≡ ByteOrder.put_bytes_with_order bytes registers little)
    × ((bytes registers : List ℕ)
        → Methods.put_float64_bytes_with_order bytes registers little
          ≡ ByteOrder.put_float64_bytes_with_order bytes registers little)
    × ((bytes : List ℕ)
        → Methods.get_int32_with_order bytes little ≡ ByteOrder.get_int32_with_order bytes little)
    × ((bytes : List ℕ)
        → Methods.get_uint32_with_order bytes little ≡ ByteOrder.get_uint32_with_order bytes little)
    × ((value : ℤ)
        → Methods.int32_to_registers value little ≡ ByteOrder.int32_to_registers value little)
    × ((value : ℕ)
        → Methods.uint32_to_registers value little ≡ ByteOrder.uint32_to_registers value little)
    × ((bits : ℕ)
        → Methods.float32_to_registers bits little ≡ ByteOrder.float32_to_registers bits little)
    × ((bits : ℕ)
        → Methods.float64_to_registers bits little ≡ ByteOrder.float64_to_registers bits little)
methods_same_example = methods_same little
