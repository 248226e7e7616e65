-- ===== src/Modbus/ByteOrder/RoundTrip.antt =====
-- Writing a value to registers and reading it back, for pkg/modbus/byteorder.go.
use mbsscaner.Prelude.{
  ℕ, ◌/◌, ◌%◌, ◌≡◌, refl, ℤ, signed, unsigned, FitsSigned, signed-unsigned, unsigned-lt, List,
  replicate, arith, ap, ◌∙◌,
}
use mbsscaner.Config.Types.{ByteOrder, big, little, middle, swap, other}
use mbsscaner.Modbus.Words.{
  IsWord32, IsWord64, swap_bytes, swap_bytes-swap_bytes, swap_bytes-pair, uint16_be,
}
use mbsscaner.Modbus.ByteOrder.{
  uint32_to_registers, int32_to_registers, float64_to_registers, put_bytes_with_order,
  put_float64_bytes_with_order, get_uint32_with_order, get_int32_with_order, float64_bits,
}

-- The order is one of the four constants of the configuration.
abbrev pub IsNamed : ByteOrder → Type 0
IsNamed (other s) = ⊥
IsNamed big = Unit
IsNamed _ = Unit

-- `make([]byte, 4)`.
abbrev pub zeroes : ℕ → List ℕ
zeroes n = replicate n 0

-- The register of two bytes of a word: exchanged, and exchanged twice.
module _ (a b : ℕ) where
  exchanged : swap_bytes (uint16_be (a % 256) (b % 256)) ≡ uint16_be (b % 256) (a % 256)
  exchanged = swap_bytes-pair (a % 256) (b % 256) (omega arith) (omega arith)

  exchanged_twice :
      swap_bytes (swap_bytes (uint16_be (a % 256) (b % 256))) ≡ uint16_be (a % 256) (b % 256)
  exchanged_twice = swap_bytes-swap_bytes (uint16_be (a % 256) (b % 256)) (omega arith)

-- A uint32 that is written in a named byte order is read back unchanged in that order.
pub uint32_round_trip :
    (v : ℕ) (order : ByteOrder)
    → IsWord32 v
    → IsNamed order
    → get_uint32_with_order
        (put_bytes_with_order (zeroes 4) (uint32_to_registers v order) order)
        order
      ≡ v
unfolding uint32_to_registers put_bytes_with_order get_uint32_with_order
uint32_round_trip v big h n = omega arith
uint32_round_trip v little h n =
    rw (exchanged_twice (v / 0x100) v, exchanged_twice (v / 0x100_0000) (v / 0x1_0000))
      (omega arith)
uint32_round_trip v middle h n = omega arith
uint32_round_trip v swap h n =
    rw (exchanged v (v / 0x100), exchanged (v / 0x1_0000) (v / 0x100_0000)) (omega arith)
uint32_round_trip v (other s) h n = elim n [ ]

int32-uint32_of_bytes :
    (bytes : List ℕ) (order : ByteOrder)
    → get_int32_with_order bytes order ≡ signed 0x8000_0000 (get_uint32_with_order bytes order)
unfolding get_int32_with_order get_uint32_with_order
int32-uint32_of_bytes bytes big = refl
int32-uint32_of_bytes bytes _ = refl

-- An int32 that is written in a named byte order is read back unchanged in that order, its sign
-- included.
pub int32_round_trip :
    (z : ℤ) (order : ByteOrder)
    → FitsSigned 0x8000_0000 z
    → IsNamed order
    → get_int32_with_order
        (put_bytes_with_order (zeroes 4) (int32_to_registers z order) order)
        order
      ≡ z
unfolding int32_to_registers
int32_round_trip z order h n =
    int32-uint32_of_bytes _ order
    ∙ ap (signed 0x8000_0000) (
        uint32_round_trip (unsigned 0x8000_0000 z) order (unsigned-lt 0x8000_0000 z (omega arith))
          n)
    ∙ signed-unsigned 0x8000_0000 z h

-- A float64 that is written in a named byte order is read back with the same bits in that order.
pub float64_round_trip :
    (bits : ℕ) (order : ByteOrder)
    → IsWord64 bits
    → IsNamed order
    → float64_bits
        (put_float64_bytes_with_order (zeroes 8) (float64_to_registers bits order) order)
        order
      ≡ bits
unfolding float64_to_registers put_float64_bytes_with_order float64_bits
float64_round_trip v big h n = omega arith
float64_round_trip v little h n =
    rw
      (
        exchanged_twice (v / 0x100) v,
        exchanged_twice (v / 0x100_0000) (v / 0x1_0000),
        exchanged_twice (v / 0x100_0000_0000) (v / 0x1_0000_0000),
        exchanged_twice (v / 0x100_0000_0000_0000) (v / 0x1_0000_0000_0000),
      )
      (omega arith)
float64_round_trip v middle h n = omega arith
float64_round_trip v swap h n = omega arith
float64_round_trip v (other s) h n = elim n [ ]
