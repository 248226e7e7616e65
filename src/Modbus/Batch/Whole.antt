-- ===== src/Modbus/Batch/Whole.antt =====
-- `readBatch` (pkg/modbus/collector.go) on a device that answers.
use mbsscaner.Prelude.{
  if◌then◌else◌, ℕ, ◌+◌, ◌≤◌, ◌<◌, List, Bool, arith, ltb, ap, Bool-cases, inl, inr,
}
use mbsscaner.Config.Types.{RegisterType}
use mbsscaner.Modbus.Grouping.{BatchGroup}
use mbsscaner.Modbus.Result.{ok, Error, M, recover}
use mbsscaner.Modbus.Client.{Client, input, holding}
use mbsscaner.Modbus.Batch.{
  split_loop, read_batch_as, read_batch, register_of_bit, coils_as_registers,
  discrete_inputs_as_registers, registers_of,
}
use mbsscaner.Modbus.Batch.Serves.{slice, map-slice, Serves, Reads, Yields}
use mbsscaner.Modbus.Batch.Split.{split_loop-Yields}

-- A device behind a client: its contents, and that the library's calls answer with them within
-- the limits of the protocol, 2000 bits and 125 registers, as long as the connection is live.
pub record Device (client : Client) : Type 1 where
  pub Live : client.Conn → Type 0
  pub coils : ℕ → Bool
  pub discrete_inputs : ℕ → Bool
  pub input_registers : ℕ → ℕ
  pub holding_registers : ℕ → ℕ
  pub serves_coils : Serves Live 2000 coils client.read_coils
  pub serves_discrete_inputs : Serves Live 2000 discrete_inputs client.read_discrete_inputs
  pub serves_input_registers :
      Serves Live 125 input_registers (λ a n. client.read_registers a n input)
  pub serves_holding_registers :
      Serves Live 125 holding_registers (λ a n. client.read_registers a n holding)

module _ (client : Client) (device : Device client) where
  open device use {
    Live, coils, discrete_inputs, input_registers, holding_registers, serves_coils,
    serves_discrete_inputs, serves_input_registers, serves_holding_registers,
  }

  -- The contents of a register table, a bit as 0 or 1; an unknown type is the holding registers.
  abbrev pub memory : RegisterType → ℕ → ℕ
  memory RegisterType.coil a = register_of_bit (coils a)
  memory RegisterType.discrete_input a = register_of_bit (discrete_inputs a)
  memory RegisterType.input_register a = input_registers a
  memory _ a = holding_registers a

  coils-Reads : Reads Live 2000 (memory RegisterType.coil) (coils_as_registers client)
  unfolding coils_as_registers
  coils-Reads a n s live pos small fits =
      let (s', e, live') = serves_coils a n s live pos small fits in
      (s', rw e (ap (λ l. (ok l, s')) (map-slice register_of_bit coils a n)), live')

  discrete_inputs-Reads :
      Reads Live 2000 (memory RegisterType.discrete_input) (discrete_inputs_as_registers client)
  unfolding discrete_inputs_as_registers
  discrete_inputs-Reads a n s live pos small fits =
      let (s', e, live') = serves_discrete_inputs a n s live pos small fits in
      (s', rw e (ap (λ l. (ok l, s')) (map-slice register_of_bit discrete_inputs a n)), live')

  input_registers-Reads :
      Reads Live 125 input_registers (registers_of client RegisterType.input_register)
  unfolding registers_of
  input_registers-Reads a n s live pos small fits =
      let (s', e, live') = serves_input_registers a n s live pos small fits in (s', rw e, live')

  holding_registers-Reads :
      Reads Live 123 holding_registers (registers_of client RegisterType.holding_register)
  unfolding registers_of
  holding_registers-Reads a n s live pos small fits =
      let (s', e, live') = serves_holding_registers a n s live pos (omega arith) fits in
      (s', rw e, live')

  module _ (g : BatchGroup) (s : client.Conn) (live : Live s) (pos : 1 ≤ g.total_length)
      (fits : g.start_address + g.total_length < 0x1_0000) where
    -- What the four readers have in common: one read, or sub-batches above the limit.
    limited-Yields :
        (mem : ℕ → ℕ) (limit : ℕ) (read : ℕ → ℕ → M client.Conn (List ℕ))
        (fallback : Error → M client.Conn (List ℕ))
        → 1 ≤ limit
        → Reads Live limit mem read
        → Yields Live (slice mem g.start_address g.total_length) (
            (if ltb limit g.total_length
                then split_loop read limit g.total_length g.start_address g.total_length
                else recover (read g.start_address g.total_length) fallback)
              s)
    limited-Yields mem limit read fallback ok_limit reads =
        elim (Bool-cases (ltb limit g.total_length)) [
          | inl long ↦ rw long (
              split_loop-Yields Live mem read limit ok_limit reads g.total_length g.start_address
                g.total_length s live (omega arith) fits)
          | inr short ↦
              let (s', e, live') =
                reads g.start_address g.total_length s live pos (ground arith) (omega arith) in
              rw short (s', rw e, live')
        ]

    read_batch_as-Yields :
        (t : RegisterType)
        → Yields Live (slice (memory t) g.start_address g.total_length) (read_batch_as client t g s)
    unfolding read_batch_as
    read_batch_as-Yields RegisterType.coil =
        limited-Yields _ 2000 (coils_as_registers client) _ (omega arith) coils-Reads
    read_batch_as-Yields RegisterType.discrete_input =
        limited-Yields _ 2000 (discrete_inputs_as_registers client) _ (omega arith)
          discrete_inputs-Reads
    read_batch_as-Yields RegisterType.input_register =
        limited-Yields _ 125 (registers_of client RegisterType.input_register) _ (omega arith)
          input_registers-Reads
    read_batch_as-Yields RegisterType.holding_register =
        limited-Yields _ 123 (registers_of client RegisterType.holding_register) _ (omega arith)
          holding_registers-Reads
    read_batch_as-Yields (RegisterType.other t) =
        limited-Yields _ 123 (registers_of client RegisterType.holding_register) _ (omega arith)
          holding_registers-Reads

    -- On a live device `readBatch` returns the contents of all registers of the group, whatever
    -- its type and however long it is, although the device answers no more than 2000 bits or 125
    -- registers at a time. The group has a register, and ends below register 0xFFFF.
    pub read_batch-Yields :
        Yields Live
          (slice (memory g.register_type) g.start_address g.total_length)
          (read_batch client g s)
    unfolding read_batch
    read_batch-Yields = read_batch_as-Yields g.register_type
