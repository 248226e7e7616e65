-- ===== src/Modbus/ByteOrder.antt =====
-- pkg/modbus/byteorder.go. A float is its bit pattern, so `math.Float32bits` and its inverse are
-- the identity here. The methods of `Collector` with the same names (pkg/modbus/collector.go) have
-- the same bodies; the calls in the sources go to the functions modelled here.
pub mod RoundTrip
pub mod Layout
use mbsscaner.Prelude.{ℕ, ◌*◌, ◌/◌, ◌%◌, ℤ, signed, unsigned, List, [], ◌∷◌}
use mbsscaner.Config.Types.{ByteOrder, big, little, middle, swap, other}
use mbsscaner.Modbus.Words.{
  put_uint16_be, put_uint16_le, uint16_be, bytes32_be, bytes64_be, uint32_be, uint32_le, uint64_be,
  uint64_le, swap_bytes,
}
use Prim.Native.Nat.{bit_or}

-- An odd byte at the end is left at 0.
unfoldable pub swap_bytes_in_registers : List ℕ → List ℕ
swap_bytes_in_registers [] = []
swap_bytes_in_registers (a ∷ []) = 0 ∷ []
swap_bytes_in_registers (a ∷ b ∷ rest) = b ∷ a ∷ swap_bytes_in_registers rest

-- The callers pass four bytes, and eight.
unfoldable pub swap_register_pairs : List ℕ → List ℕ
swap_register_pairs (a ∷ b ∷ c ∷ d ∷ _) = c ∷ d ∷ a ∷ b ∷ []
swap_register_pairs _ = []

unfoldable pub swap_register_pairs64 : List ℕ → List ℕ
swap_register_pairs64 (a ∷ b ∷ c ∷ d ∷ e ∷ f ∷ g ∷ h ∷ _) = e ∷ f ∷ g ∷ h ∷ a ∷ b ∷ c ∷ d ∷ []
swap_register_pairs64 _ = []

-- `[]uint16{BigEndian.Uint16(bytes[0:2]), BigEndian.Uint16(bytes[2:4]), …}` over the whole slice.
unfoldable pub registers_be : List ℕ → List ℕ
registers_be (a ∷ b ∷ rest) = uint16_be a b ∷ registers_be rest
registers_be _ = []

-- The registers from the last to the first, each with its bytes exchanged.
unfoldable pub registers_little : List ℕ → List ℕ
unfolding swap_bytes
registers_little (a ∷ b ∷ c ∷ d ∷ []) = swap_bytes (uint16_be c d) ∷ swap_bytes (uint16_be a b) ∷ []
registers_little (a ∷ b ∷ c ∷ d ∷ e ∷ f ∷ g ∷ h ∷ []) =
    swap_bytes (uint16_be g h)
    ∷ swap_bytes (uint16_be e f)
    ∷ swap_bytes (uint16_be c d)
    ∷ swap_bytes (uint16_be a b)
    ∷ []
registers_little _ = []

-- `b := []byte{byte(value >> 8), byte(value)}`, joined again and exchanged, for a pattern `u`.
unfoldable pub swapped_int16 : ℕ → ℕ
unfolding swap_bytes
swapped_int16 u =
    let b0 = u / 0x100 % 0x100 in
    let b1 = u % 0x100 in swap_bytes (bit_or (b0 * 0x100 % 0x1_0000) b1)

unfoldable pub int16_to_registers : ℤ → ByteOrder → List ℕ
unfolding swapped_int16
int16_to_registers value little = swapped_int16 (unsigned 0x8000 value) ∷ []
int16_to_registers value swap = swapped_int16 (unsigned 0x8000 value) ∷ []
int16_to_registers value _ = unsigned 0x8000 value ∷ []

unfoldable pub uint16_to_registers : ℕ → ByteOrder → List ℕ
unfolding swap_bytes
uint16_to_registers value little = swap_bytes value ∷ []
uint16_to_registers value swap = swap_bytes value ∷ []
uint16_to_registers value _ = value ∷ []

unfoldable pub uint32_to_registers : ℕ → ByteOrder → List ℕ
unfolding registers_be registers_little swap_bytes_in_registers swap_register_pairs
uint32_to_registers value little = registers_little (bytes32_be value)
uint32_to_registers value swap = registers_be (swap_bytes_in_registers (bytes32_be value))
uint32_to_registers value middle = registers_be (swap_register_pairs (bytes32_be value))
uint32_to_registers value _ = registers_be (bytes32_be value)

-- The body of `uint32ToRegisters` once more, over `uint32(value)`.
unfoldable pub int32_to_registers : ℤ → ByteOrder → List ℕ
unfolding uint32_to_registers
int32_to_registers value order = uint32_to_registers (unsigned 0x8000_0000 value) order

-- The body of `uint32ToRegisters` once more, over `math.Float32bits(value)`.
unfoldable pub float32_to_registers : ℕ → ByteOrder → List ℕ
unfolding uint32_to_registers
float32_to_registers bits order = uint32_to_registers bits order

unfoldable pub float64_to_registers : ℕ → ByteOrder → List ℕ
unfolding registers_be registers_little swap_bytes_in_registers swap_register_pairs64
float64_to_registers bits little = registers_little (bytes64_be bits)
float64_to_registers bits swap = registers_be (swap_bytes_in_registers (bytes64_be bits))
float64_to_registers bits middle = registers_be (swap_register_pairs64 (bytes64_be bits))
float64_to_registers bits _ = registers_be (bytes64_be bits)

-- The new contents of `bytes`. Fewer than two registers, or an order that is none of the four
-- constants, leave it as it is.
unfoldable pub put_bytes_with_order : List ℕ → List ℕ → ByteOrder → List ℕ
unfolding swap_bytes
put_bytes_with_order bytes [] order = bytes
put_bytes_with_order bytes (r ∷ []) order = bytes
put_bytes_with_order bytes (r0 ∷ r1 ∷ _) big = put_uint16_be (put_uint16_be bytes 0 r0) 2 r1
put_bytes_with_order bytes (r0 ∷ r1 ∷ _) little =
    put_uint16_le (put_uint16_le bytes 0 (swap_bytes r0)) 2 (swap_bytes r1)
put_bytes_with_order bytes (r0 ∷ r1 ∷ _) swap =
    put_uint16_be (put_uint16_be bytes 0 (swap_bytes r0)) 2 (swap_bytes r1)
put_bytes_with_order bytes (r0 ∷ r1 ∷ _) middle = put_uint16_be (put_uint16_be bytes 0 r1) 2 r0
put_bytes_with_order bytes (r0 ∷ r1 ∷ _) (other s) = bytes

unfoldable pub get_uint32_with_order : List ℕ → ByteOrder → ℕ
get_uint32_with_order bytes little = uint32_le bytes
get_uint32_with_order bytes _ = uint32_be bytes

unfoldable pub get_int32_with_order : List ℕ → ByteOrder → ℤ
get_int32_with_order bytes little = signed 0x8000_0000 (uint32_le bytes)
get_int32_with_order bytes _ = signed 0x8000_0000 (uint32_be bytes)

-- With `swap` the two bytes of each register go in the other way round.
unfoldable pub put_float64_bytes_with_order : List ℕ → List ℕ → ByteOrder → List ℕ
unfolding swap_bytes
put_float64_bytes_with_order bytes (r0 ∷ r1 ∷ r2 ∷ r3 ∷ _) big =
    put_uint16_be (put_uint16_be (put_uint16_be (put_uint16_be bytes 0 r0) 2 r1) 4 r2) 6 r3
put_float64_bytes_with_order bytes (r0 ∷ r1 ∷ r2 ∷ r3 ∷ _) little =
    put_uint16_le
      (put_uint16_le (put_uint16_le (put_uint16_le bytes 0 (swap_bytes r0)) 2 (swap_bytes r1)) 4
        (swap_bytes r2))
      6 (swap_bytes r3)
put_float64_bytes_with_order bytes (r0 ∷ r1 ∷ r2 ∷ r3 ∷ _) swap =
    put_uint16_le (put_uint16_le (put_uint16_le (put_uint16_le bytes 0 r0) 2 r1) 4 r2) 6 r3
put_float64_bytes_with_order bytes (r0 ∷ r1 ∷ r2 ∷ r3 ∷ _) middle =
    put_uint16_be (put_uint16_be (put_uint16_be (put_uint16_be bytes 0 r2) 2 r3) 4 r0) 6 r1
put_float64_bytes_with_order bytes _ _ = bytes

-- The choice that the readers of a float64 make: little endian alone is read from the low end.
unfoldable pub float64_bits : List ℕ → ByteOrder → ℕ
float64_bits bytes little = uint64_le bytes
float64_bits bytes _ = uint64_be bytes
