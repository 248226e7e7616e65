-- ===== src/Modbus/Client.antt =====
-- The Modbus library that pkg/modbus calls (github.com/simonvetter/modbus), as an interface. `Conn`
-- is the state of the library's client together with the device behind it.
use mbsscaner.Prelude.{ℕ, List, Bool}
use mbsscaner.Modbus.Result.{Reply}

-- `modbus.RegType`.
pub data RegType : Type 0 where
  holding input : RegType

pub record Client : Type 1 where
  pub Conn : Type 0
  pub open_conn : Conn → Reply (Unit {0}) × Conn
  pub close_conn : Conn → Reply (Unit {0}) × Conn
  pub read_coils : ℕ → ℕ → Conn → Reply (List Bool) × Conn
  pub read_discrete_inputs : ℕ → ℕ → Conn → Reply (List Bool) × Conn
  pub read_registers : ℕ → ℕ → RegType → Conn → Reply (List ℕ) × Conn
  pub read_register : ℕ → RegType → Conn → Reply ℕ × Conn
  pub write_coil : ℕ → Bool → Conn → Reply (Unit {0}) × Conn
  pub write_registers : ℕ → List ℕ → Conn → Reply (Unit {0}) × Conn
