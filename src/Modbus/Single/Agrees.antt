-- ===== src/Modbus/Single/Agrees.antt =====
-- Reading one point by itself and reading it as part of a batch (pkg/modbus/collector.go).
use mbsscaner.Prelude.{ℕ, zero, suc, ◌+◌, ◌%◌, ◌≤◌, ◌≡◌, refl, arith, length, ltb, false}
use mbsscaner.Config.Types.{DataType, ByteOrder, big, other, Point}
use mbsscaner.Modbus.Result.{Result, ok}
use mbsscaner.Modbus.Client.{Client, RegType}
use mbsscaner.Modbus.Batch.{get_modbus_register_type}
use mbsscaner.Modbus.Batch.Serves.{slice, ServesOne, Serves, length-slice}
use mbsscaner.Modbus.Value.{Value}
use mbsscaner.Modbus.Parse.{parse_registers_for_point, parse_as, device_byte_order}
use mbsscaner.Modbus.ByteOrder.RoundTrip.{IsNamed}
use mbsscaner.Modbus.Single.{
  collect_single_point, collect_as, read_int16, read_uint16, read_int32, read_uint32, read_float32,
  read_float64, read_bool, read_string, read_string_from,
}

-- The point has the length that its data type takes; a text may have any length.
abbrev pub HasWidth : DataType → ℕ → Type 0
HasWidth DataType.int16 n = n ≡ 1
HasWidth DataType.uint16 n = n ≡ 1
HasWidth DataType.int32 n = n ≡ 2
HasWidth DataType.uint32 n = n ≡ 2
HasWidth DataType.float32 n = n ≡ 2
HasWidth DataType.float64 n = n ≡ 4
HasWidth DataType.bool n = n ≡ 1
HasWidth DataType.string n = Unit
HasWidth (DataType.other s) n = ⊥

pub named-device_byte_order : (order : ByteOrder) → IsNamed order → device_byte_order order ≡ order
unfolding device_byte_order
named-device_byte_order (other s) h = elim h [ ]
named-device_byte_order big h = refl
named-device_byte_order _ h = refl

module _ (client : Client) (Live : client.Conn → Type 0) (mem : ℕ → ℕ) (reg : RegType)
    (serves_one : ServesOne Live mem (λ a w. client.read_register a reg w))
    (serves : Serves Live 125 mem (λ a n w. client.read_registers a n reg w)) where
  -- The loop of `readString` reads the slice of the device's registers.
  pub read_string_from-slice :
      (a n : ℕ) (w : client.Conn)
      → Live w
      → a + n ≤ 0x1_0000
      → (w' : client.Conn) × (read_string_from client reg a n w ≡ (ok (slice mem a n), w'))
        × Live w'
  unfolding read_string_from
  read_string_from-slice a zero w l h = (w, refl, l)
  read_string_from-slice a (suc zero) w l h =
      let (w1, e1, l1) = serves_one a w l (omega arith) in (w1, rw e1 refl, l1)
  read_string_from-slice a (suc (suc n)) w l h =
      let (w1, e1, l1) = serves_one a w l (omega arith) in
      let (w2, e2, l2) = read_string_from-slice (a + 1) (suc n) w1 l1 (omega arith) in
      let e : (a + 1) % 0x1_0000 ≡ a + 1 = omega arith in (w2, rw e1 (rw e (rw e2 refl)), l2)

  -- The outcome of a single read that gives the value that the registers are parsed to.
  abbrev pub Same : Result Value × client.Conn → Result Value → Type 0
  Same outcome parsed =
      (v : Value) × (parsed ≡ ok v) × ((w' : client.Conn) × (outcome ≡ (ok v, w')) × Live w')

  -- For each data type, at the n registers that it takes.
  pub collect_as-Same :
      (t : DataType) (order : ByteOrder) (p : Point) (n : ℕ) (w : client.Conn)
      → Live w
      → get_modbus_register_type p.register_type ≡ ok reg
      → p.length ≡ n
      → HasWidth t n
      → p.address + n ≤ 0x1_0000
      → Same (collect_as client t order p w) (parse_as t order (slice mem p.address n))
  unfolding collect_as parse_as read_int16 read_uint16 read_int32 read_uint32 read_float32
      read_float64 read_bool read_string
  collect_as-Same DataType.int16 order p n w l g e h b =
      let (w', e', l') = serves_one p.address w l (omega arith) in
      rw h (_, refl, (w', simp (g, e'), l'))
  collect_as-Same DataType.uint16 order p n w l g e h b =
      let (w', e', l') = serves_one p.address w l (omega arith) in
      rw h (_, refl, (w', simp (g, e'), l'))
  collect_as-Same DataType.bool order p n w l g e h b =
      let (w', e', l') = serves_one p.address w l (omega arith) in
      rw h (_, refl, (w', simp (g, e'), l'))
  collect_as-Same DataType.int32 order p n w l g e h b =
      let (w', e', l') = serves p.address 2 w l (omega arith) (omega arith) (omega arith) in
      rw h (_, refl, (w', simp (g, e'), l'))
  collect_as-Same DataType.uint32 order p n w l g e h b =
      let (w', e', l') = serves p.address 2 w l (omega arith) (omega arith) (omega arith) in
      rw h (_, refl, (w', simp (g, e'), l'))
  collect_as-Same DataType.float32 order p n w l g e h b =
      let (w', e', l') = serves p.address 2 w l (omega arith) (omega arith) (omega arith) in
      rw h (_, refl, (w', simp (g, e'), l'))
  collect_as-Same DataType.float64 order p n w l g e h b =
      let (w', e', l') = serves p.address 4 w l (omega arith) (omega arith) (omega arith) in
      rw h (_, refl, (w', simp (g, e'), l'))
  collect_as-Same DataType.string order p n w l g e h b =
      let (w', e', l') = read_string_from-slice p.address n w l b in
      (_, refl, (w', simp (g, e, e'), l'))
  collect_as-Same (DataType.other s) order p n w l g e h b = elim h [ ]

  -- In a named byte order, a point of a register type, with the length of its data type and within
  -- the address space, read by itself on a device that answers, has the value that a batch read
  -- parses from the point's registers. The scale is not applied on either side.
  pub collect_single_point-Agrees :
      (order : ByteOrder) (p : Point) (w : client.Conn)
      → Live w
      → IsNamed order
      → get_modbus_register_type p.register_type ≡ ok reg
      → HasWidth p.data_type p.length
      → p.address + p.length ≤ 0x1_0000
      → Same
          (collect_single_point client order p w)
          (parse_registers_for_point order p (slice mem p.address p.length))
  unfolding collect_single_point parse_registers_for_point
  collect_single_point-Agrees order p w l named g h b =
      let len = length-slice mem p.address p.length in
      let enough : ltb (length (slice mem p.address p.length)) p.length ≡ false = ground arith in
      let (v, e, rest) = collect_as-Same p.data_type order p p.length w l g refl h b in
      (v, rw enough (rw (named-device_byte_order order named) e), rest)
