-- ===== src/Modbus/Single/Written.antt =====
-- Reading back a point of the holding registers that was written (pkg/modbus/collector.go).
use mbsscaner.Prelude.{ℕ, ◌+◌, ◌≤◌, ◌≡◌, refl, sym, ap, ◌∙◌, List, arith, length}
use mbsscaner.Config.Types.{RegisterType, ByteOrder, Point}
use mbsscaner.Modbus.Result.{ok, reply}
use mbsscaner.Modbus.Client.{Client, holding}
use mbsscaner.Modbus.Batch.{get_modbus_register_type}
use mbsscaner.Modbus.Batch.Serves.{slice, ServesOne, Serves}
use mbsscaner.Modbus.Value.{Value, Floats}
use mbsscaner.Modbus.Parse.{parse_as}
use mbsscaner.Modbus.Write.{value_registers, write_holding_register}
use mbsscaner.Modbus.Single.{collect_single_point}
use mbsscaner.Modbus.Single.Agrees.{HasWidth, collect_as-Same}
use mbsscaner.Modbus.Single.Encoded.{Keeps, converted, HasWidth-unique, value_registers-Encodes}

-- A device with holding registers that the library's calls write and read. `Holds mem w` says that
-- the connection `w` is live and that the device behind it has the registers `mem`.
pub record Storage (client : Client) : Type 1 where
  pub Holds : (ℕ → ℕ) → client.Conn → Type 0
  pub stores :
      (mem : ℕ → ℕ) (a : ℕ) (regs : List ℕ) (w : client.Conn)
      → Holds mem w
      → 1 ≤ length regs
      → length regs ≤ 123
      → a + length regs ≤ 0x1_0000
      → (mem' : ℕ → ℕ) × (w' : client.Conn) × (client.write_registers a regs w ≡ (reply tt, w'))
        × (slice mem' a (length regs) ≡ regs)
        × Holds mem' w'
  pub serves_one :
      (mem : ℕ → ℕ) → ServesOne (Holds mem) mem (λ a w. client.read_register a holding w)
  pub serves :
      (mem : ℕ → ℕ) → Serves (Holds mem) 125 mem (λ a n w. client.read_registers a n holding w)

module _ (floats : Floats) (client : Client) (device : Storage client) where
  open device use {Holds, stores, serves_one, serves}

  -- The step of the write alone.
  write_holding_register-Stored :
      (order : ByteOrder) (p : Point) (v : Value) (regs : List ℕ) (w w' : client.Conn)
      → value_registers floats p.data_type order v ≡ ok regs
      → client.write_registers p.address regs w ≡ (reply tt, w')
      → write_holding_register floats client order p v w ≡ (ok tt, w')
  unfolding write_holding_register
  write_holding_register-Stored order p v regs w w' e f = simp (e, f)

  holding-get_modbus_register_type :
      get_modbus_register_type RegisterType.holding_register ≡ ok holding
  unfolding get_modbus_register_type
  holding-get_modbus_register_type = refl

  -- The registers of the point hold the converted value.
  abbrev pub Carries : ByteOrder → Point → Value → (ℕ → ℕ) → Type 0
  Carries order p v mem =
      parse_as p.data_type order (slice mem p.address p.length)
      ≡ ok (converted floats p.data_type v)

  -- The write leaves the device with registers that carry the value.
  pub write_holding_register-Carries :
      (order : ByteOrder) (p : Point) (v : Value) (mem : ℕ → ℕ) (w : client.Conn)
      → Holds mem w
      → HasWidth p.data_type p.length
      → p.address + p.length ≤ 0x1_0000
      → Keeps floats p.data_type order v
      → (mem' : ℕ → ℕ) × (w' : client.Conn) × (write_holding_register floats client order p v w
          ≡ (ok tt, w'))
        × Carries order p v mem'
        × Holds mem' w'
  write_holding_register-Carries order p v mem w held width fits keeps =
      let (regs, e, hw, lo, hi, parsed) =
        value_registers-Encodes floats p.data_type order v keeps in
      let len : p.length ≡ length regs =
        HasWidth-unique floats p.data_type order v p.length (length regs) keeps width hw in
      let (mem', w1, e1, stored, held') =
        stores mem p.address regs w held lo (omega arith) (omega arith) in
      (
        mem',
        w1,
        write_holding_register-Stored order p v regs w w1 e e1,
        ap (λ n. parse_as p.data_type order (slice mem' p.address n)) len
            ∙ ap (parse_as p.data_type order) stored
            ∙ parsed,
        held',
      )

  -- A single read then gives that value.
  pub Carries-collect_single_point :
      (order : ByteOrder) (p : Point) (v : Value) (mem : ℕ → ℕ) (w : client.Conn)
      → Holds mem w
      → Carries order p v mem
      → p.register_type ≡ RegisterType.holding_register
      → HasWidth p.data_type p.length
      → p.address + p.length ≤ 0x1_0000
      → (w' : client.Conn) × (collect_single_point client order p w
          ≡ (ok (converted floats p.data_type v), w'))
  unfolding collect_single_point
  Carries-collect_single_point order p v mem w held carries t width fits =
      let (v', parsed, (w', e, held')) =
        collect_as-Same client (Holds mem) mem holding (serves_one mem) (serves mem) p.data_type
          order p p.length w held (ap get_modbus_register_type t ∙ holding-get_modbus_register_type)
          refl width fits in
      (w', e ∙ ap (λ r. (r, w')) (sym parsed ∙ carries))

  -- A value written to a point of the holding registers that lies within the address space is
  -- converted to the point's data type, and reading the point by itself afterwards gives the
  -- converted value: for 32 and 64 bits in every named byte order, for 16 bits in `big` and
  -- `middle`.
  pub write_holding_register_round_trip :
      (order : ByteOrder) (p : Point) (v : Value) (mem : ℕ → ℕ) (w : client.Conn)
      → Holds mem w
      → p.register_type ≡ RegisterType.holding_register
      → HasWidth p.data_type p.length
      → p.address + p.length ≤ 0x1_0000
      → Keeps floats p.data_type order v
      → (w1 w2 : client.Conn) × (write_holding_register floats client order p v w ≡ (ok tt, w1))
        × (collect_single_point client order p w1 ≡ (ok (converted floats p.data_type v), w2))
  write_holding_register_round_trip order p v mem w held t width fits keeps =
      let (mem', w1, e, carries, held') =
        write_holding_register-Carries order p v mem w held width fits keeps in
      let (w2, f) = Carries-collect_single_point order p v mem' w1 held' carries t width fits in
      (w1, w2, e, f)
