-- ===== src/Modbus/Parse.antt =====
-- `parseRegistersForPoint` and the scaling of `collectBatchGroup` (pkg/modbus/collector.go).
pub mod Total
use mbsscaner.Prelude.{
  ℕ, ◌/◌, ◌%◌, pos, signed, str_eq, List, [], ◌∷◌, not, ltb, ◌==◌, if◌then◌else◌, length, replicate,
}
use mbsscaner.Config.Types.{DataType, ByteOrder, big, other, Point}
use mbsscaner.Modbus.ByteOrder.{
  put_bytes_with_order, get_int32_with_order, get_uint32_with_order, put_float64_bytes_with_order,
  float64_bits,
}
use mbsscaner.Modbus.Result.{Result, ok, err, panics, insufficient_registers, unsupported_data_type}
use mbsscaner.Modbus.Value.{Value, Floats}

-- The device's byte order, big endian where the configuration has none.
unfoldable pub device_byte_order : ByteOrder → ByteOrder
device_byte_order (other s) = if str_eq s "" then big else other s
device_byte_order order = order

-- `registers[0]`, a panic on an empty slice.
abbrev pub first_register : List ℕ → (ℕ → Value) → Result Value
first_register [] k = panics
first_register (r ∷ _) k = ok (k r)

-- `if len(registers) < n { return … }`.
abbrev pub with_registers : List ℕ → ℕ → Value → Result Value
with_registers registers n v =
    if ltb (length registers) n then err (insufficient_registers n (length registers)) else ok v

unfoldable pub bytes_of_registers : List ℕ → List ℕ
bytes_of_registers [] = []
bytes_of_registers (r ∷ rs) = (r / 0x100 % 0x100) ∷ (r % 0x100) ∷ bytes_of_registers rs

-- The bytes before the first 0.
unfoldable pub before_nul : List ℕ → List ℕ
before_nul [] = []
before_nul (b ∷ bs) = if b == 0 then [] else b ∷ before_nul bs

-- The `switch` on the data type, in the byte order `order`.
unfoldable pub parse_as : DataType → ByteOrder → List ℕ → Result Value
unfolding bytes_of_registers before_nul
parse_as DataType.int16 order registers =
    first_register registers λ r. Value.int16 (signed 0x8000 r)
parse_as DataType.uint16 order registers = first_register registers Value.uint16
parse_as DataType.int32 order registers = with_registers registers 2 (
    Value.int32 (get_int32_with_order (put_bytes_with_order (replicate 4 0) registers order) order))
parse_as DataType.uint32 order registers = with_registers registers 2 (
    Value.uint32
      (get_uint32_with_order (put_bytes_with_order (replicate 4 0) registers order) order))
parse_as DataType.float32 order registers = with_registers registers 2 (
    Value.float32
      (get_uint32_with_order (put_bytes_with_order (replicate 4 0) registers order) order))
parse_as DataType.float64 order registers = with_registers registers 4 (
    Value.float64
      (float64_bits (put_float64_bytes_with_order (replicate 8 0) registers order) order))
parse_as DataType.bool order registers = first_register registers λ r. Value.bool (not (r == 0))
parse_as DataType.string order registers =
    ok (Value.string (before_nul (bytes_of_registers registers)))
parse_as (DataType.other s) order registers = err (unsupported_data_type (DataType.other s))

unfoldable pub parse_registers_for_point : ByteOrder → Point → List ℕ → Result Value
unfolding parse_as device_byte_order
parse_registers_for_point order point registers =
    if ltb (length registers) point.length
    then err (insufficient_registers point.length (length registers))
    else parse_as point.data_type (device_byte_order order) registers

-- The bits of the float64 1.0; no other float64 is equal to it.
abbrev pub one : ℕ
one = 0x3ff0_0000_0000_0000

module _ (floats : Floats) where
  open floats use {times, widen, narrow, float64_of, to_int16, to_uint16, to_int32, to_uint32}

  -- The `switch` on the value's type, for a factor `k` that is not 1.0.
  unfoldable pub scale_value : ℕ → Value → Value
  scale_value k (Value.float64 v) = Value.float64 (times v k)
  scale_value k (Value.float32 v) = Value.float32 (narrow (times (widen v) k))
  scale_value k (Value.int16 v) = Value.int16 (to_int16 (times (float64_of v) k))
  scale_value k (Value.uint16 v) = Value.uint16 (to_uint16 (times (float64_of (pos v)) k))
  scale_value k (Value.int32 v) = Value.int32 (to_int32 (times (float64_of v) k))
  scale_value k (Value.uint32 v) = Value.uint32 (to_uint32 (times (float64_of (pos v)) k))
  scale_value k v = v

  unfoldable pub apply_scale : Point → Value → Value
  unfolding scale_value
  apply_scale point v = if not (point.scale == one) then scale_value point.scale v else v
