-- ===== src/Modbus/Write.antt =====
-- `WritePoint`, `writeCoil` and `writeHoldingRegister` (pkg/modbus/collector.go), without the log
-- lines.
use mbsscaner.Prelude.{ℕ, List, Bool, not, ◌==◌, pos, negsuc, ℤ, zero, suc, true, false}
use mbsscaner.Config.Types.{DataType, RegisterType, ByteOrder, Point}
use mbsscaner.Config.Points.{is_zero_scale}
use mbsscaner.Modbus.Result.{
  Result, ok, err, M, ◌>>=◌, fail, recover, call, not_writable, unsupported_value,
  unsupported_data_type, write_failed, failed_to_connect,
}
use mbsscaner.Modbus.Batch.{lift}
use mbsscaner.Modbus.Client.{Client}
use mbsscaner.Modbus.Value.{Value, Floats}
use mbsscaner.Modbus.ByteOrder.{
  int16_to_registers, uint16_to_registers, int32_to_registers, uint32_to_registers,
  float32_to_registers, float64_to_registers,
}
use mbsscaner.Modbus.Convert.{
  int64_of, uint64_of, int16_of, uint16_of, int32_of, uint32_of, to_float32, to_float64,
}
use mbsscaner.Modbus.Collector.{Collector, ensure_connected}
use mbsscaner.Modbus.Collect.{on_conn}

-- `z != 0`.
unfoldable pub is_nonzero : ℤ → Bool
is_nonzero (pos zero) = false
is_nonzero (pos (suc n)) = true
is_nonzero (negsuc n) = true

module _ (floats : Floats) where
  -- The `switch` of `writeCoil`.
  unfoldable pub bool_value : Value → Result Bool
  unfolding is_nonzero int64_of uint64_of to_float64 is_zero_scale
  bool_value (Value.bool b) = ok b
  bool_value (Value.int z) = ok (is_nonzero (int64_of floats (Value.int z)))
  bool_value (Value.int8 z) = ok (is_nonzero (int64_of floats (Value.int8 z)))
  bool_value (Value.int16 z) = ok (is_nonzero (int64_of floats (Value.int16 z)))
  bool_value (Value.int32 z) = ok (is_nonzero (int64_of floats (Value.int32 z)))
  bool_value (Value.int64 z) = ok (is_nonzero (int64_of floats (Value.int64 z)))
  bool_value (Value.uint n) = ok (not (uint64_of floats (Value.uint n) == 0))
  bool_value (Value.uint8 n) = ok (not (uint64_of floats (Value.uint8 n) == 0))
  bool_value (Value.uint16 n) = ok (not (uint64_of floats (Value.uint16 n) == 0))
  bool_value (Value.uint32 n) = ok (not (uint64_of floats (Value.uint32 n) == 0))
  bool_value (Value.uint64 n) = ok (not (uint64_of floats (Value.uint64 n) == 0))
  bool_value (Value.float32 f) = ok (not (is_zero_scale (to_float64 floats (Value.float32 f))))
  bool_value (Value.float64 f) = ok (not (is_zero_scale (to_float64 floats (Value.float64 f))))
  bool_value _ = err unsupported_value

  -- The `switch` of `writeHoldingRegister`.
  unfoldable pub value_registers : DataType → ByteOrder → Value → Result (List ℕ)
  unfolding int16_to_registers uint16_to_registers int32_to_registers uint32_to_registers
      float32_to_registers float64_to_registers int16_of uint16_of int32_of uint32_of to_float32
      to_float64
  value_registers DataType.int16 order v = ok (int16_to_registers (int16_of floats v) order)
  value_registers DataType.uint16 order v = ok (uint16_to_registers (uint16_of floats v) order)
  value_registers DataType.int32 order v = ok (int32_to_registers (int32_of floats v) order)
  value_registers DataType.uint32 order v = ok (uint32_to_registers (uint32_of floats v) order)
  value_registers DataType.float32 order v = ok (float32_to_registers (to_float32 floats v) order)
  value_registers DataType.float64 order v = ok (float64_to_registers (to_float64 floats v) order)
  value_registers t order v = err (unsupported_data_type t)

module _ (floats : Floats) (client : Client) where
  open client use {Conn, write_coil, write_registers}

  unfoldable pub write_coil_point : Point → Value → M Conn (Unit {0})
  unfolding bool_value
  write_coil_point point v = do
    b ← lift (bool_value floats v)
    recover (call (write_coil point.address b)) λ e. fail (write_failed e)

  unfoldable pub write_holding_register : ByteOrder → Point → Value → M Conn (Unit {0})
  unfolding value_registers
  write_holding_register order point v = do
    registers ← lift (value_registers floats point.data_type order v)
    recover (call (write_registers point.address registers)) λ e. fail (write_failed e)

  unfoldable pub write_as : RegisterType → ByteOrder → Point → Value → M Conn (Unit {0})
  unfolding write_coil_point write_holding_register
  write_as RegisterType.coil order point v = write_coil_point point v
  write_as RegisterType.holding_register order point v = write_holding_register order point v
  write_as t order point v = fail (not_writable t)

  unfoldable pub write_point : Point → Value → M (Collector Conn) (Unit {0})
  unfolding write_as ensure_connected
  write_point point v = do
    _ ← recover (ensure_connected client) λ e. fail (failed_to_connect e)
    λ c. on_conn floats client (write_as point.register_type c.device.byte_order point v) c
