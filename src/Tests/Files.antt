-- ===== src/Tests/Files.antt =====
-- Text and points files (config/points.go) at concrete inputs.
use Prim.Native.Char.{Char}
use mbsscaner.Prelude.{
  ℕ, String, str_eq, ◌≡◌, refl, List, [], ◌∷◌, Option, none, some, if◌then◌else◌,
}
use mbsscaner.Config.Types.{DataType, RegisterType}
use mbsscaner.Config.Text.{trim, to_lower, parse_uint}
use mbsscaner.Config.Load.{parsed, refused, load_points, bad_record, invalid_data_type, unit_scale}

abbrev pub same_rune : Char → Char
same_rune c = c

abbrev one_and_half : String → Option ℕ
one_and_half s = if str_eq s "1.5" then some 0x3ff8_0000_0000_0000 else none

lowers : to_lower same_rune "Int16" ≡ "int16"
unfolding to_lower
lowers = refl

trims : trim " \t a b  " ≡ "a b"
unfolding trim
trims = refl

parses : parse_uint "65535" ≡ some 65535
unfolding parse_uint
parses = refl

overflows : parse_uint "65536" ≡ none
unfolding parse_uint
overflows = refl

abbrev header : List String
header = "Name" ∷ " address" ∷ "DATA_TYPE" ∷ "register_type" ∷ "length" ∷ "scale" ∷ []

loads :
    load_points same_rune one_and_half (
      some (
        header
        ∷ ("temp" ∷ "100" ∷ "Float32" ∷ "input_register" ∷ "" ∷ "1.5" ∷ [])
        ∷ ("" ∷ [])
        ∷ ("flow" ∷ "7" ∷ "uint16" ∷ "" ∷ "3" ∷ "" ∷ [])
        ∷ []))
    ≡ parsed (
        record {
          name = "temp";
          address = 100;
          data_type = DataType.float32;
          register_type = RegisterType.input_register;
          length = 2;
          scale = 0x3ff8_0000_0000_0000;
          unit = "";
          description = "";
        }
        ∷ record {
          name = "flow";
          address = 7;
          data_type = DataType.uint16;
          register_type = RegisterType.holding_register;
          length = 3;
          scale = unit_scale;
          unit = "";
          description = "";
        }
        ∷ [])
unfolding load_points
loads = refl

bad_type :
    load_points same_rune one_and_half
      (some (header ∷ ("temp" ∷ "100" ∷ "int8" ∷ "coil" ∷ []) ∷ []))
    ≡ refused (bad_record 2 invalid_data_type)
unfolding load_points
bad_type = refl
