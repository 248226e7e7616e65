-- ===== src/Tests/Reading.antt =====
-- Connecting and reading (pkg/modbus/collector.go) against the test clients.
use mathlib.Core.List.{Perm}
use mbsscaner.Prelude.{ap, ℕ, ◌+◌, ◌≡◌, refl, arith, inl, true, false, pos, List, [], ◌∷◌, map}
use mbsscaner.Config.Types.{RegisterType, big, ModbusDevice}
use mbsscaner.Modbus.Result.{ok, err, Error, client, unsupported_register_type}
use mbsscaner.Modbus.Client.{holding}
use mbsscaner.Modbus.Value.{Floats}
use mbsscaner.Modbus.Grouping.{BatchGroup}
use mbsscaner.Modbus.Grouping.Runs.{IsRun}
use mbsscaner.Modbus.Batch.{
  register_of_bit, get_modbus_register_type, read_batch, coils_as_registers, split_loop,
}
use mbsscaner.Modbus.Batch.Serves.{map-slice, Reads, slice, Yields}
use mbsscaner.Modbus.Batch.Split.{split_loop-Yields}
use mbsscaner.Modbus.Batch.Whole.{read_batch-Yields}
use mbsscaner.Modbus.Batch.Fallback.{bit_fallback_fails, register_fallback-Yields}
use mbsscaner.Modbus.Collector.{Collector, fresh_collector, ensure_connected}
use mbsscaner.Modbus.Collector.Connected.{Ensured, ensure_connected-Ensured}
use mbsscaner.Modbus.Collector.Attempts.{
  Tested, ensure_connected-Tested, refused_times, ensure_connected_unreachable,
}
use mbsscaner.Modbus.Collect.{PointValue, collect_points}
use mbsscaner.Modbus.Collect.Exact.{reading, collect_points-exact}
use mbsscaner.Tests.Grouping.{point, plant, plant-Fits}
use mbsscaner.Tests.Devices.{answering, answering_device, single_reads, unreachable}

-- Float operations for the tests, which use none of them.
abbrev pub floats : Floats
floats = record {
  times = λ a b. a;
  widen = λ a. a;
  narrow = λ a. a;
  float64_of = λ z. 0;
  float32_of = λ z. 0;
  to_int16 = λ a. pos 0;
  to_uint16 = λ a. 0;
  to_int32 = λ a. pos 0;
  to_uint32 = λ a. 0;
  to_int64 = λ a. pos 0;
  to_uint64 = λ a. 0;
  single_to_int64 = λ a. pos 0;
  single_to_uint64 = λ a. 0;
}

abbrev pub plc : ModbusDevice
plc = record {
  name = "plc";
  host = "10.0.0.5";
  port = pos 502;
  slave_id = 1;
  timeout = pos 5;
  interval = pos 10;
  points_file = "plc.csv";
  byte_order = big;
}

abbrev pub idle : Collector ℕ
idle = record { conn = 0; device = plc; connected = false; retry_count = 0; max_retries = 3 }

abbrev pub online : Collector ℕ
online = record idle { conn = 2; connected = true }

abbrev long_group : BatchGroup
long_group = record {
  register_type = RegisterType.holding_register;
  start_address = 10;
  points = point "long" RegisterType.holding_register 10 300 ∷ [];
  total_length = 300;
}

abbrev pair_group : BatchGroup
pair_group = record {
  register_type = RegisterType.holding_register;
  start_address = 10;
  points =
      point "x" RegisterType.holding_register 10 1
      ∷ point "y" RegisterType.holding_register 11 1
      ∷ [];
  total_length = 2;
}

abbrev coil_group : BatchGroup
coil_group = record {
  register_type = RegisterType.coil;
  start_address = 5;
  points = point "b" RegisterType.coil 5 1 ∷ [];
  total_length = 1;
}

idle_is_fresh : fresh_collector answering 0 plc ≡ idle
unfolding fresh_collector
idle_is_fresh = refl

pub connects : ensure_connected answering idle ≡ (ok tt, online)
unfolding ensure_connected
connects = refl

-- Three sub-batches.
long_read : (read_batch answering long_group 0).1 ≡ 3
unfolding read_batch
long_read = refl

bits-Reads : Reads (λ n. Unit {0}) 2 (λ i. 1) (coils_as_registers answering)
unfolding coils_as_registers
bits-Reads a k n live p q r =
    (n + 1, ap (λ l. (ok l, n + 1)) (map-slice register_of_bit (λ i. true) a k), tt)

split_loop-Yields_example :
    Yields
      (λ n. Unit {0})
      (slice (λ i. 1) 0 5)
      (split_loop (coils_as_registers answering) 2 5 0 5 0)
split_loop-Yields_example =
    split_loop-Yields (λ n. Unit) (λ i. 1) (coils_as_registers answering) 2 (omega arith) bits-Reads
      5 0 5 0 tt (omega arith) (omega arith)

pair-IsRun : IsRun pair_group
pair-IsRun = record {
  run = (refl, refl, omega arith, (refl, refl, omega arith, refl));
  has_register = omega arith;
  in_range = omega arith;
}

holding_is_known : get_modbus_register_type RegisterType.holding_register ≡ ok holding
unfolding get_modbus_register_type
holding_is_known = refl

read_batch-Yields_example :
    Yields (λ n. Unit {0}) (slice (λ i. i + 1) 10 300) (read_batch answering long_group 0)
read_batch-Yields_example =
    read_batch-Yields answering answering_device long_group 0 tt (omega arith) (omega arith)

register_fallback-Yields_example :
    Yields (λ n. Unit {0}) (slice (λ i. i + 1) 10 2) (read_batch single_reads pair_group 0)
register_fallback-Yields_example =
    register_fallback-Yields single_reads (λ n. Unit) (λ i. i + 1) holding
      (λ a n live p. (n + 1, refl, tt)) pair_group (client 2) 0 1 holding_is_known pair-IsRun
      (omega arith) refl tt

bit_fallback_fails_example :
    read_batch single_reads coil_group 0 ≡ (err (unsupported_register_type RegisterType.coil), 1)
bit_fallback_fails_example =
    bit_fallback_fails single_reads coil_group (client 2) 0 1 (omega arith) (inl (refl, refl))

ensure_connected-Ensured_example : Ensured answering idle (ensure_connected answering idle)
ensure_connected-Ensured_example = ensure_connected-Ensured answering idle

ensure_connected-Tested_example : Tested answering online
ensure_connected-Tested_example = ensure_connected-Tested answering idle online connects

ensure_connected_unreachable_example :
    (x : Error) × (ensure_connected unreachable idle ≡ (err x, refused_times unreachable 3 idle))
ensure_connected_unreachable_example =
    ensure_connected_unreachable unreachable idle (λ w. (client 1, refl)) refl

collect_points-exact_example :
    (values : List PointValue) × (w : ℕ) × (collect_points floats answering plant idle
      ≡ (ok values, record online { conn = w }))
    × Perm values (map (reading floats answering answering_device plc) plant)
    × Unit {0}
collect_points-exact_example =
    collect_points-exact floats answering answering_device idle online plant connects tt plant-Fits
