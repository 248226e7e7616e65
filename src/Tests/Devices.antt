-- ===== src/Tests/Devices.antt =====
-- Clients of the Modbus library for the tests: one with a device that answers, one whose device
-- answers single reads only, and one that cannot connect.
use mbsscaner.Prelude.{ℕ, ◌+◌, refl, true}
use mbsscaner.Modbus.Result.{reply, refused, client}
use mbsscaner.Modbus.Client.{Client}
use mbsscaner.Modbus.Batch.Serves.{slice}
use mbsscaner.Modbus.Batch.Whole.{Device}

-- Register a holds a + 1; every bit is set. The state counts the calls.
abbrev pub answering : Client
answering = record {
  Conn = ℕ;
  open_conn = λ n. (reply tt, n + 1);
  close_conn = λ n. (reply tt, n + 1);
  read_coils = λ a k n. (reply (slice (λ i. true) a k), n + 1);
  read_discrete_inputs = λ a k n. (reply (slice (λ i. true) a k), n + 1);
  read_registers = λ a k t n. (reply (slice (λ i. i + 1) a k), n + 1);
  read_register = λ a t n. (reply (a + 1), n + 1);
  write_coil = λ a b n. (reply tt, n + 1);
  write_registers = λ a rs n. (reply tt, n + 1);
}

abbrev pub answering_device : Device answering
answering_device = record {
  Live = λ n. Unit;
  coils = λ i. true;
  discrete_inputs = λ i. true;
  input_registers = λ i. i + 1;
  holding_registers = λ i. i + 1;
  serves_coils = λ a k n live p q r. (n + 1, refl, tt);
  serves_discrete_inputs = λ a k n live p q r. (n + 1, refl, tt);
  serves_input_registers = λ a k n live p q r. (n + 1, refl, tt);
  serves_holding_registers = λ a k n live p q r. (n + 1, refl, tt);
}

-- Reads of several values are refused.
abbrev pub single_reads : Client
single_reads = record {
  Conn = ℕ;
  open_conn = λ n. (reply tt, n + 1);
  close_conn = λ n. (reply tt, n + 1);
  read_coils = λ a k n. (refused (client 2), n + 1);
  read_discrete_inputs = λ a k n. (refused (client 2), n + 1);
  read_registers = λ a k t n. (refused (client 2), n + 1);
  read_register = λ a t n. (reply (a + 1), n + 1);
  write_coil = λ a b n. (reply tt, n + 1);
  write_registers = λ a rs n. (reply tt, n + 1);
}

-- No connection can be opened.
abbrev pub unreachable : Client
unreachable = record {
  Conn = ℕ;
  open_conn = λ n. (refused (client 1), n + 1);
  close_conn = λ n. (reply tt, n + 1);
  read_coils = λ a k n. (refused (client 2), n + 1);
  read_discrete_inputs = λ a k n. (refused (client 2), n + 1);
  read_registers = λ a k t n. (refused (client 2), n + 1);
  read_register = λ a t n. (refused (client 2), n + 1);
  write_coil = λ a b n. (reply tt, n + 1);
  write_registers = λ a rs n. (reply tt, n + 1);
}
