-- ===== src/Modbus/Batch.antt =====
-- Reading a group's registers: `readBatch` and what it calls (pkg/modbus/collector.go). The
-- registers that some of these functions return beside an error are left out, since
-- `collectBatchGroup` drops them; log lines are left out.
pub mod Serves
pub mod Split
pub mod Whole
pub mod Fallback
pub mod Sized
use mbsscaner.Prelude.{
  ℕ, zero, suc, ◌+◌, ◌-◌, ◌%◌, List, [], ◌∷◌, ◌++◌, map, Bool, true, false, ltb, ◌==◌,
  if◌then◌else◌,
}
use mbsscaner.Config.Types.{RegisterType, Point}
use mbsscaner.Modbus.Grouping.{BatchGroup}
use mbsscaner.Modbus.Result.{
  Result, ok, err, M, ◌>>=◌, return, fail, recover, call, unsupported_register_type,
}
use mbsscaner.Modbus.Client.{Client, RegType, holding, input}

-- `getModbusRegisterType`: the two types that the library's register calls know.
unfoldable pub get_modbus_register_type : RegisterType → Result RegType
get_modbus_register_type RegisterType.input_register = ok input
get_modbus_register_type RegisterType.holding_register = ok holding
get_modbus_register_type t = err (unsupported_register_type t)

abbrev pub max_coil_read : ℕ
max_coil_read = 2000

abbrev pub max_discrete_input_read : ℕ
max_discrete_input_read = 2000

abbrev pub max_input_register_read : ℕ
max_input_register_read = 125

abbrev pub max_holding_register_read : ℕ
max_holding_register_read = 123

-- A bit as a register.
unfoldable pub register_of_bit : Bool → ℕ
register_of_bit b = if b then 1 else 0

-- A result that needs no state.
abbrev pub lift : {S A : Type 0} → Result A → M S A
lift r s = (r, s)

-- The loop of the four split functions, over the read of one sub-batch. The length that remains
-- falls in each round, so it bounds the rounds that are left.
unfoldable pub split_loop : {S : Type 0} → (ℕ → ℕ → M S (List ℕ)) → ℕ → ℕ → ℕ → ℕ → M S (List ℕ)
split_loop read max_read zero start remaining = return []
split_loop read max_read (suc rounds) start zero = return []
split_loop read max_read (suc rounds) start (suc n) = do
  let batch = if ltb max_read (suc n) then max_read else suc n
  regs ← read start batch
  rest ← split_loop read max_read rounds ((start + batch) % 0x1_0000) (suc n - batch)
  return (regs ++ rest)

-- `value` of each register of a point, for i from 0 on.
unfoldable pub read_each : {S : Type 0} → (ℕ → M S ℕ) → ℕ → ℕ → M S (List ℕ)
read_each read zero address = return []
read_each read (suc n) address = do
  value ← read address
  rest ← read_each read n ((address + 1) % 0x1_0000)
  return (value ∷ rest)

module _ (client : Client) where
  open client use {Conn, read_coils, read_discrete_inputs, read_registers, read_register}

  unfoldable pub coils_as_registers : ℕ → ℕ → M Conn (List ℕ)
  unfolding register_of_bit
  coils_as_registers a n = do bits ← call (read_coils a n); return (map register_of_bit bits)

  unfoldable pub discrete_inputs_as_registers : ℕ → ℕ → M Conn (List ℕ)
  unfolding register_of_bit
  discrete_inputs_as_registers a n = do
    bits ← call (read_discrete_inputs a n)
    return (map register_of_bit bits)

  unfoldable pub registers_of : RegisterType → ℕ → ℕ → M Conn (List ℕ)
  unfolding get_modbus_register_type
  registers_of t a n = do
    reg_type ← lift (get_modbus_register_type t)
    call (read_registers a n reg_type)

  -- The points' registers one by one, in the order of the points.
  unfoldable pub read_points : RegType → List Point → M Conn (List ℕ)
  unfolding read_each
  read_points reg_type [] = return []
  read_points reg_type (p ∷ ps) = do
    regs ← read_each (λ a. call (read_register a reg_type)) p.length p.address
    rest ← read_points reg_type ps
    return (regs ++ rest)

  unfoldable pub read_batch_individual : BatchGroup → M Conn (List ℕ)
  unfolding get_modbus_register_type read_points
  read_batch_individual g = do
    reg_type ← lift (get_modbus_register_type g.register_type)
    read_points reg_type g.points

  unfoldable pub read_coil_batch_split : BatchGroup → ℕ → M Conn (List ℕ)
  unfolding split_loop coils_as_registers
  read_coil_batch_split g max_read =
      split_loop coils_as_registers max_read g.total_length g.start_address g.total_length

  unfoldable pub read_discrete_input_batch_split : BatchGroup → ℕ → M Conn (List ℕ)
  unfolding split_loop discrete_inputs_as_registers
  read_discrete_input_batch_split g max_read =
      split_loop discrete_inputs_as_registers max_read g.total_length g.start_address g.total_length

  unfoldable pub read_input_register_batch_split : BatchGroup → ℕ → M Conn (List ℕ)
  unfolding split_loop registers_of
  read_input_register_batch_split g max_read =
      split_loop (registers_of RegisterType.input_register) max_read g.total_length g.start_address
        g.total_length

  unfoldable pub read_holding_register_batch_split : BatchGroup → ℕ → M Conn (List ℕ)
  unfolding split_loop registers_of
  read_holding_register_batch_split g max_read =
      split_loop (registers_of RegisterType.holding_register) max_read g.total_length
        g.start_address g.total_length

  unfoldable pub read_coil_batch : BatchGroup → M Conn (List ℕ)
  unfolding read_coil_batch_split coils_as_registers read_batch_individual
  read_coil_batch g =
      if ltb max_coil_read g.total_length
      then read_coil_batch_split g max_coil_read
      else recover (coils_as_registers g.start_address g.total_length) λ _. read_batch_individual g

  unfoldable pub read_discrete_input_batch : BatchGroup → M Conn (List ℕ)
  unfolding read_discrete_input_batch_split discrete_inputs_as_registers read_batch_individual
  read_discrete_input_batch g =
      if ltb max_discrete_input_read g.total_length
      then read_discrete_input_batch_split g max_discrete_input_read
      else recover (discrete_inputs_as_registers g.start_address g.total_length)
          λ _. read_batch_individual g

  unfoldable pub read_input_register_batch : BatchGroup → M Conn (List ℕ)
  unfolding read_input_register_batch_split registers_of read_batch_individual
  read_input_register_batch g =
      if ltb max_input_register_read g.total_length
      then read_input_register_batch_split g max_input_register_read
      else recover (registers_of RegisterType.input_register g.start_address g.total_length)
          λ _. read_batch_individual g

  unfoldable pub read_holding_register_batch : BatchGroup → M Conn (List ℕ)
  unfolding read_holding_register_batch_split registers_of read_batch_individual
  read_holding_register_batch g =
      if ltb max_holding_register_read g.total_length
      then read_holding_register_batch_split g max_holding_register_read
      else recover (registers_of RegisterType.holding_register g.start_address g.total_length)
          λ _. read_batch_individual g

  -- The `switch` of `readBatch` on the register type.
  unfoldable pub read_batch_as : RegisterType → BatchGroup → M Conn (List ℕ)
  unfolding read_coil_batch read_discrete_input_batch read_input_register_batch
      read_holding_register_batch
  read_batch_as RegisterType.coil g = read_coil_batch g
  read_batch_as RegisterType.discrete_input g = read_discrete_input_batch g
  read_batch_as RegisterType.input_register g = read_input_register_batch g
  read_batch_as _ g = read_holding_register_batch g

  unfoldable pub read_batch : BatchGroup → M Conn (List ℕ)
  unfolding read_batch_as
  read_batch g = read_batch_as g.register_type g
