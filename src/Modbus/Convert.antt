-- ===== src/Modbus/Convert.antt =====
-- The conversions of pkg/modbus/converter.go. A conversion between integer types keeps the low
-- bits of the two's complement pattern; those from and to floats are parameters. `toString`, which
-- nothing calls, is left out.
use mbsscaner.Prelude.{ℕ, ◌%◌, ℤ, pos, signed, unsigned}
use mbsscaner.Modbus.Value.{Value, Floats}

module _ (floats : Floats) where
  open floats use {
    widen, narrow, float64_of, float32_of, to_int64, to_uint64, single_to_int64, single_to_uint64,
  }

  -- `toInt64`.
  unfoldable pub int64_of : Value → ℤ
  int64_of (Value.int z) = z
  int64_of (Value.int8 z) = z
  int64_of (Value.int16 z) = z
  int64_of (Value.int32 z) = z
  int64_of (Value.int64 z) = z
  int64_of (Value.uint n) = signed 0x8000_0000_0000_0000 n
  int64_of (Value.uint8 n) = pos n
  int64_of (Value.uint16 n) = pos n
  int64_of (Value.uint32 n) = pos n
  int64_of (Value.uint64 n) = signed 0x8000_0000_0000_0000 n
  int64_of (Value.float32 f) = single_to_int64 f
  int64_of (Value.float64 f) = to_int64 f
  int64_of _ = pos 0

  -- `toUint64`.
  unfoldable pub uint64_of : Value → ℕ
  uint64_of (Value.int z) = unsigned 0x8000_0000_0000_0000 z
  uint64_of (Value.int8 z) = unsigned 0x8000_0000_0000_0000 z
  uint64_of (Value.int16 z) = unsigned 0x8000_0000_0000_0000 z
  uint64_of (Value.int32 z) = unsigned 0x8000_0000_0000_0000 z
  uint64_of (Value.int64 z) = unsigned 0x8000_0000_0000_0000 z
  uint64_of (Value.uint n) = n
  uint64_of (Value.uint8 n) = n
  uint64_of (Value.uint16 n) = n
  uint64_of (Value.uint32 n) = n
  uint64_of (Value.uint64 n) = n
  uint64_of (Value.float32 f) = single_to_uint64 f
  uint64_of (Value.float64 f) = to_uint64 f
  uint64_of _ = 0

  -- `toInt16`, `toUint16`, `toInt32` and `toUint32`.
  unfoldable pub int16_of : Value → ℤ
  unfolding int64_of
  int16_of v = signed 0x8000 (unsigned 0x8000 (int64_of v))

  unfoldable pub uint16_of : Value → ℕ
  unfolding uint64_of
  uint16_of v = uint64_of v % 0x1_0000

  unfoldable pub int32_of : Value → ℤ
  unfolding int64_of
  int32_of v = signed 0x8000_0000 (unsigned 0x8000_0000 (int64_of v))

  unfoldable pub uint32_of : Value → ℕ
  unfolding uint64_of
  uint32_of v = uint64_of v % 0x1_0000_0000

  -- `toFloat32`.
  unfoldable pub to_float32 : Value → ℕ
  unfolding int64_of uint64_of
  to_float32 (Value.float32 f) = f
  to_float32 (Value.float64 f) = narrow f
  to_float32 (Value.int z) = float32_of (int64_of (Value.int z))
  to_float32 (Value.int8 z) = float32_of (int64_of (Value.int8 z))
  to_float32 (Value.int16 z) = float32_of (int64_of (Value.int16 z))
  to_float32 (Value.int32 z) = float32_of (int64_of (Value.int32 z))
  to_float32 (Value.int64 z) = float32_of (int64_of (Value.int64 z))
  to_float32 (Value.uint n) = float32_of (pos (uint64_of (Value.uint n)))
  to_float32 (Value.uint8 n) = float32_of (pos (uint64_of (Value.uint8 n)))
  to_float32 (Value.uint16 n) = float32_of (pos (uint64_of (Value.uint16 n)))
  to_float32 (Value.uint32 n) = float32_of (pos (uint64_of (Value.uint32 n)))
  to_float32 (Value.uint64 n) = float32_of (pos (uint64_of (Value.uint64 n)))
  to_float32 _ = 0

  -- `toFloat64`.
  unfoldable pub to_float64 : Value → ℕ
  unfolding int64_of uint64_of
  to_float64 (Value.float32 f) = widen f
  to_float64 (Value.float64 f) = f
  to_float64 (Value.int z) = float64_of (int64_of (Value.int z))
  to_float64 (Value.int8 z) = float64_of (int64_of (Value.int8 z))
  to_float64 (Value.int16 z) = float64_of (int64_of (Value.int16 z))
  to_float64 (Value.int32 z) = float64_of (int64_of (Value.int32 z))
  to_float64 (Value.int64 z) = float64_of (int64_of (Value.int64 z))
  to_float64 (Value.uint n) = float64_of (pos (uint64_of (Value.uint n)))
  to_float64 (Value.uint8 n) = float64_of (pos (uint64_of (Value.uint8 n)))
  to_float64 (Value.uint16 n) = float64_of (pos (uint64_of (Value.uint16 n)))
  to_float64 (Value.uint32 n) = float64_of (pos (uint64_of (Value.uint32 n)))
  to_float64 (Value.uint64 n) = float64_of (pos (uint64_of (Value.uint64 n)))
  to_float64 _ = 0
