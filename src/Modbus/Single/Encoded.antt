-- ===== src/Modbus/Single/Encoded.antt =====
-- The registers that a written value is encoded in, and what they are parsed to
-- (pkg/modbus/collector.go, pkg/modbus/byteorder.go).
use mbsscaner.Prelude.{
  ℕ, ◌+◌, ◌%◌, ◌≤◌, ◌≡◌, refl, ap, List, arith, length, unsigned, unsigned-lt, signed-FitsSigned,
  signed-unsigned, FitsSigned, ◌⊎◌, inl, inr, ◌↔◌, ◌/◌, ◌*◌,
}
use mbsscaner.Config.Types.{DataType, ByteOrder, big, little, middle, swap, other}
use mbsscaner.Modbus.Words.{IsWord32, IsWord64, IsRegister, swap_bytes-sum}
use mbsscaner.Modbus.Result.{ok}
use mbsscaner.Modbus.Value.{Value, nil, Floats}
use mbsscaner.Modbus.Parse.{parse_as}
use mbsscaner.Modbus.ByteOrder.{
  int16_to_registers, uint16_to_registers, int32_to_registers, uint32_to_registers,
  float32_to_registers, float64_to_registers,
}
use mbsscaner.Modbus.ByteOrder.RoundTrip.{
  IsNamed, uint32_round_trip, int32_round_trip, float64_round_trip,
}
use mbsscaner.Modbus.Convert.{int16_of, uint16_of, int32_of, uint32_of, to_float32, to_float64}
use mbsscaner.Modbus.Write.{value_registers}
use mbsscaner.Modbus.Single.Agrees.{HasWidth}

-- The orders that leave the two bytes of a single register as they are.
abbrev pub KeepsBytes : ByteOrder → Type 0
KeepsBytes big = Unit
KeepsBytes middle = Unit
KeepsBytes _ = ⊥

length-uint32_to_registers : (v : ℕ) (order : ByteOrder) → length (uint32_to_registers v order) ≡ 2
unfolding uint32_to_registers
length-uint32_to_registers v (other s) = refl
length-uint32_to_registers v big = refl
length-uint32_to_registers v little = refl
length-uint32_to_registers v middle = refl
length-uint32_to_registers v swap = refl

length-float64_to_registers :
    (v : ℕ) (order : ByteOrder) → length (float64_to_registers v order) ≡ 4
unfolding float64_to_registers
length-float64_to_registers v (other s) = refl
length-float64_to_registers v big = refl
length-float64_to_registers v little = refl
length-float64_to_registers v middle = refl
length-float64_to_registers v swap = refl

-- In the orders `little` and `swap` a uint16 is read back with its two bytes exchanged, so it is
-- read back as it was written exactly if its two bytes are the same; the document on byte orders
-- says that the order has no effect on 16-bit values.
pub uint16_written_swapped :
    (v : ℕ) (order : ByteOrder)
    → IsRegister v
    → (order ≡ little) ⊎ (order ≡ swap)
    → (parse_as DataType.uint16 order (uint16_to_registers v order)
        ≡ ok (Value.uint16 (v / 256 + v % 256 * 256)))
      × ((v / 256 + v % 256 * 256 ≡ v) ↔ (v / 256 ≡ v % 256))
unfolding parse_as uint16_to_registers
uint16_written_swapped v order h (inl e) = (
  rw e (ap (λ r. ok (Value.uint16 r)) (swap_bytes-sum v h)),
  (λ same. omega arith, λ same. omega arith),
)
uint16_written_swapped v order h (inr e) = (
  rw e (ap (λ r. ok (Value.uint16 r)) (swap_bytes-sum v h)),
  (λ same. omega arith, λ same. omega arith),
)

module _ (floats : Floats) where
  -- The value that a written one is converted to for a data type.
  abbrev pub converted : DataType → Value → Value
  converted DataType.int16 v = Value.int16 (int16_of floats v)
  converted DataType.uint16 v = Value.uint16 (uint16_of floats v)
  converted DataType.int32 v = Value.int32 (int32_of floats v)
  converted DataType.uint32 v = Value.uint32 (uint32_of floats v)
  converted DataType.float32 v = Value.float32 (to_float32 floats v)
  converted DataType.float64 v = Value.float64 (to_float64 floats v)
  converted _ v = nil

  -- The data types and byte orders for which a value is read back as it was converted; the bits of
  -- a converted float have the width of its type.
  abbrev pub Keeps : DataType → ByteOrder → Value → Type 0
  Keeps DataType.int16 order v = KeepsBytes order
  Keeps DataType.uint16 order v = KeepsBytes order
  Keeps DataType.int32 order v = IsNamed order
  Keeps DataType.uint32 order v = IsNamed order
  Keeps DataType.float32 order v = IsNamed order × IsWord32 (to_float32 floats v)
  Keeps DataType.float64 order v = IsNamed order × IsWord64 (to_float64 floats v)
  Keeps _ order v = ⊥

  -- The registers that are written hold the converted value.
  abbrev pub Encodes : DataType → ByteOrder → Value → Type 0
  Encodes t order v =
      (regs : List ℕ) × (value_registers floats t order v ≡ ok regs)
      × HasWidth t (length regs)
      × (1 ≤ length regs)
      × (length regs ≤ 4)
      × (parse_as t order regs ≡ ok (converted t v))

  pub HasWidth-unique :
      (t : DataType) (order : ByteOrder) (v : Value) (m n : ℕ)
      → Keeps t order v
      → HasWidth t m
      → HasWidth t n
      → m ≡ n
  HasWidth-unique DataType.string order v m n k a b = elim k [ ]
  HasWidth-unique (DataType.other s) order v m n k a b = elim k [ ]
  HasWidth-unique DataType.int16 order v m n k a b = omega arith
  HasWidth-unique _ order v m n k a b = omega arith

  int16_of-FitsSigned : (v : Value) → FitsSigned 0x8000 (int16_of floats v)
  unfolding int16_of
  int16_of-FitsSigned v = signed-FitsSigned 0x8000 _ (unsigned-lt 0x8000 _ (omega arith))

  int32_of-FitsSigned : (v : Value) → FitsSigned 0x8000_0000 (int32_of floats v)
  unfolding int32_of
  int32_of-FitsSigned v = signed-FitsSigned 0x8000_0000 _ (unsigned-lt 0x8000_0000 _ (omega arith))

  uint32_of-IsWord32 : (v : Value) → IsWord32 (uint32_of floats v)
  unfolding uint32_of
  uint32_of-IsWord32 v = omega arith

  pub value_registers-Encodes :
      (t : DataType) (order : ByteOrder) (v : Value) → Keeps t order v → Encodes t order v
  unfolding value_registers parse_as int16_to_registers uint16_to_registers int32_to_registers
      float32_to_registers
  value_registers-Encodes DataType.int16 big v k = (
    _,
    refl,
    refl,
    omega arith,
    omega arith,
    ap (λ z. ok (Value.int16 z)) (signed-unsigned 0x8000 _ (int16_of-FitsSigned v)),
  )
  value_registers-Encodes DataType.int16 middle v k = (
    _,
    refl,
    refl,
    omega arith,
    omega arith,
    ap (λ z. ok (Value.int16 z)) (signed-unsigned 0x8000 _ (int16_of-FitsSigned v)),
  )
  value_registers-Encodes DataType.uint16 big v k = (_, refl, refl, omega arith, omega arith, refl)
  value_registers-Encodes DataType.uint16 middle v k =
      (_, refl, refl, omega arith, omega arith, refl)
  value_registers-Encodes DataType.int32 order v k =
      let len = length-uint32_to_registers (unsigned 0x8000_0000 (int32_of floats v)) order in
      (
        _,
        refl,
        len,
        omega arith,
        omega arith,
        simp (len, int32_round_trip (int32_of floats v) order (int32_of-FitsSigned v) k),
      )
  value_registers-Encodes DataType.uint32 order v k =
      let len = length-uint32_to_registers (uint32_of floats v) order in
      (
        _,
        refl,
        len,
        omega arith,
        omega arith,
        simp (len, uint32_round_trip (uint32_of floats v) order (uint32_of-IsWord32 v) k),
      )
  value_registers-Encodes DataType.float32 order v k =
      let len = length-uint32_to_registers (to_float32 floats v) order in
      (
        _,
        refl,
        len,
        omega arith,
        omega arith,
        simp (len, uint32_round_trip (to_float32 floats v) order k.1 k.0),
      )
  value_registers-Encodes DataType.float64 order v k =
      let len = length-float64_to_registers (to_float64 floats v) order in
      (
        _,
        refl,
        len,
        omega arith,
        omega arith,
        simp (len, float64_round_trip (to_float64 floats v) order k.1 k.0),
      )
  value_registers-Encodes _ order v k = elim k [ ]
