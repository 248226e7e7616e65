-- ===== src/Tests/Codec.antt =====
-- The byte orders of pkg/modbus/byteorder.go at concrete values, and parser runs.
use mbsscaner.Prelude.{ℕ, ◌≡◌, ◌↔◌, refl, arith, negsuc, List, [], ◌∷◌}
use mbsscaner.Config.Types.{DataType, RegisterType, big, little, middle, swap, Point}
use mbsscaner.Modbus.Words.{uint32_be}
use mbsscaner.Modbus.Result.{ok, panics}
use mbsscaner.Modbus.Value.{Value}
use mbsscaner.Modbus.ByteOrder.{
  uint32_to_registers, int32_to_registers, float64_to_registers, put_bytes_with_order,
  put_float64_bytes_with_order, get_uint32_with_order, float64_bits,
}
use mbsscaner.Modbus.ByteOrder.RoundTrip.{zeroes, uint32_round_trip, float64_round_trip}
use mbsscaner.Modbus.ByteOrder.Layout.{lettered32, uint32_to_registers-lettered}
use mbsscaner.Modbus.Parse.{parse_registers_for_point}
use mbsscaner.Modbus.Parse.Total.{TakesFirst, parse_panics_iff}

little_registers : uint32_to_registers 0x1234_5678 little ≡ 0x7856 ∷ 0x3412 ∷ []
unfolding uint32_to_registers
little_registers = refl

swap_registers : uint32_to_registers 0x1234_5678 swap ≡ 0x3412 ∷ 0x7856 ∷ []
unfolding uint32_to_registers
swap_registers = refl

middle_registers : uint32_to_registers 0x1234_5678 middle ≡ 0x5678 ∷ 0x1234 ∷ []
unfolding uint32_to_registers
middle_registers = refl

minus_two : int32_to_registers (negsuc 1) big ≡ 0xffff ∷ 0xfffe ∷ []
unfolding int32_to_registers
minus_two = refl

-- A register counter: uint16, one register.
abbrev pub counter : Point
counter = record {
  name = "counter";
  address = 7;
  data_type = DataType.uint16;
  register_type = RegisterType.holding_register;
  length = 1;
  scale = 0x3ff0_0000_0000_0000;
  unit = "";
  description = "";
}

abbrev no_length : Point
no_length = record counter { length = 0 }

text_bytes :
    parse_registers_for_point big
      (record counter { data_type = DataType.string; length = 2 })
      (0x4142 ∷ 0x4300 ∷ [])
    ≡ ok (Value.string (0x41 ∷ 0x42 ∷ 0x43 ∷ []))
unfolding parse_registers_for_point
text_bytes = refl

uint32_round_trip_example :
    get_uint32_with_order
      (put_bytes_with_order (zeroes 4) (uint32_to_registers 0x1234_5678 little) little)
      little
    ≡ 0x1234_5678
uint32_round_trip_example = uint32_round_trip 0x1234_5678 little (omega arith) tt

float64_round_trip_example :
    float64_bits
      (put_float64_bytes_with_order
        (zeroes 8)
        (float64_to_registers 0x4009_21fb_5444_2d18 middle)
        middle)
      middle
    ≡ 0x4009_21fb_5444_2d18
float64_round_trip_example = float64_round_trip 0x4009_21fb_5444_2d18 middle (omega arith) tt

uint32_to_registers-lettered_example :
    (uint32_to_registers (uint32_be (0x12 ∷ 0x34 ∷ 0x56 ∷ 0x78 ∷ [])) little
      ≡ lettered32 0x12 0x34 0x56 0x78 little)
    × ((uint32_to_registers (uint32_be (0x12 ∷ 0x34 ∷ 0x56 ∷ 0x78 ∷ [])) little
          ≡ 0x1234 ∷ 0x5678 ∷ [])
        ↔ ((◌≡◌ {A = ℕ} 0x12 0x78) × (◌≡◌ {A = ℕ} 0x34 0x56)))
uint32_to_registers-lettered_example =
    uint32_to_registers-lettered 0x12 0x34 0x56 0x78 little (omega arith) (omega arith)
      (omega arith) (omega arith)

parse_panics_iff_example :
    (parse_registers_for_point big no_length [] ≡ panics)
    ↔ ((no_length.length ≡ 0) × (◌≡◌ {A = List ℕ} [] []) × TakesFirst no_length.data_type)
parse_panics_iff_example = parse_panics_iff big no_length []
