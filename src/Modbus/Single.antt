-- ===== src/Modbus/Single.antt =====
-- `ReadSinglePoint`, `collectSinglePoint` and the readers of one value (pkg/modbus/collector.go),
-- without the time stamp.
pub mod Agrees
pub mod Encoded
pub mod Written
pub mod Unset
use mbsscaner.Prelude.{ℕ, String, zero, suc, ◌+◌, ◌%◌, signed, List, [], ◌∷◌, not, ◌==◌, replicate}
use mbsscaner.Config.Types.{DataType, RegisterType, ByteOrder, Point}
use mbsscaner.Modbus.Result.{
  Result, ok, err, panics, M, ◌>>=◌, return, fail, recover, call, unsupported_data_type,
  failed_to_connect,
}
use mbsscaner.Modbus.Batch.{lift, get_modbus_register_type}
use mbsscaner.Modbus.Client.{Client, RegType}
use mbsscaner.Modbus.Value.{Value, Floats}
use mbsscaner.Modbus.ByteOrder.{
  put_bytes_with_order, get_int32_with_order, get_uint32_with_order, put_float64_bytes_with_order,
  float64_bits,
}
use mbsscaner.Modbus.Parse.{bytes_of_registers, before_nul}
use mbsscaner.Modbus.Collector.{Collector, ensure_connected}
use mbsscaner.Modbus.Collect.{PointValue, good_value, on_conn}

module _ (client : Client) where
  open client use {Conn, read_register, read_registers}

  -- The readers of one register, with what they make of it.
  abbrev read_one : ℕ → RegisterType → (ℕ → Value) → M Conn Value
  read_one address t k = do
    reg ← lift (get_modbus_register_type t)
    value ← call (read_register address reg)
    return (k value)

  -- The readers of n registers at once.
  abbrev read_words : ℕ → ℕ → RegisterType → (List ℕ → Value) → M Conn Value
  read_words address n t k = do
    reg ← lift (get_modbus_register_type t)
    registers ← call (read_registers address n reg)
    return (k registers)

  unfoldable pub read_int16 : ℕ → RegisterType → M Conn Value
  unfolding get_modbus_register_type
  read_int16 address t = read_one address t λ r. Value.int16 (signed 0x8000 r)

  unfoldable pub read_uint16 : ℕ → RegisterType → M Conn Value
  unfolding get_modbus_register_type
  read_uint16 address t = read_one address t Value.uint16

  unfoldable pub read_bool : ℕ → RegisterType → M Conn Value
  unfolding get_modbus_register_type
  read_bool address t = read_one address t λ r. Value.bool (not (r == 0))

  unfoldable pub read_int32 : ByteOrder → ℕ → RegisterType → M Conn Value
  unfolding get_modbus_register_type put_bytes_with_order get_int32_with_order
  read_int32 order address t = read_words address 2 t λ registers.
      Value.int32
        (get_int32_with_order (put_bytes_with_order (replicate 4 0) registers order) order)

  unfoldable pub read_uint32 : ByteOrder → ℕ → RegisterType → M Conn Value
  unfolding get_modbus_register_type put_bytes_with_order get_uint32_with_order
  read_uint32 order address t = read_words address 2 t λ registers.
      Value.uint32
        (get_uint32_with_order (put_bytes_with_order (replicate 4 0) registers order) order)

  unfoldable pub read_float32 : ByteOrder → ℕ → RegisterType → M Conn Value
  unfolding get_modbus_register_type put_bytes_with_order get_uint32_with_order
  read_float32 order address t = read_words address 2 t λ registers.
      Value.float32
        (get_uint32_with_order (put_bytes_with_order (replicate 4 0) registers order) order)

  unfoldable pub read_float64 : ByteOrder → ℕ → RegisterType → M Conn Value
  unfolding get_modbus_register_type put_float64_bytes_with_order float64_bits
  read_float64 order address t = read_words address 4 t λ registers.
      Value.float64
        (float64_bits (put_float64_bytes_with_order (replicate 8 0) registers order) order)

  -- The loop of `readString`, at `address+i` on uint16, with the number of registers that are left.
  unfoldable pub read_string_from : RegType → ℕ → ℕ → M Conn (List ℕ)
  read_string_from reg address zero = return []
  read_string_from reg address (suc n) = do
    r ← call (read_register address reg)
    rest ← read_string_from reg ((address + 1) % 0x1_0000) n
    return (r ∷ rest)

  unfoldable pub read_string : ℕ → ℕ → RegisterType → M Conn Value
  unfolding get_modbus_register_type read_string_from bytes_of_registers before_nul
  read_string address n t = do
    reg ← lift (get_modbus_register_type t)
    registers ← read_string_from reg address n
    return (Value.string (before_nul (bytes_of_registers registers)))

  unfoldable pub collect_as : DataType → ByteOrder → Point → M Conn Value
  unfolding read_int16 read_uint16 read_int32 read_uint32 read_float32 read_float64 read_bool
      read_string
  collect_as DataType.int16 order p = read_int16 p.address p.register_type
  collect_as DataType.uint16 order p = read_uint16 p.address p.register_type
  collect_as DataType.int32 order p = read_int32 order p.address p.register_type
  collect_as DataType.uint32 order p = read_uint32 order p.address p.register_type
  collect_as DataType.float32 order p = read_float32 order p.address p.register_type
  collect_as DataType.float64 order p = read_float64 order p.address p.register_type
  collect_as DataType.bool order p = read_bool p.address p.register_type
  collect_as DataType.string order p = read_string p.address p.length p.register_type
  collect_as (DataType.other s) order p = fail (unsupported_data_type (DataType.other s))

  unfoldable pub collect_single_point : ByteOrder → Point → M Conn Value
  unfolding collect_as
  collect_single_point order p = collect_as p.data_type order p

-- The `PointValue` that `ReadSinglePoint` builds of a value. The scale is not applied.
unfoldable pub as_good : {S : Type 0} → String → Point → Result Value × S → Result PointValue × S
unfolding good_value
as_good device point (ok v, s) = (ok (good_value device point v), s)
as_good device point (err e, s) = (err e, s)
as_good device point (panics, s) = (panics, s)

module _ (floats : Floats) (client : Client) where
  open client use {Conn}

  unfoldable pub read_single_point : Point → M (Collector Conn) PointValue
  unfolding collect_single_point ensure_connected as_good
  read_single_point point = do
    _ ← recover (ensure_connected client) λ e. fail (failed_to_connect e)
    λ c.
        as_good c.device.name point
          (on_conn floats client (collect_single_point client c.device.byte_order point) c)
