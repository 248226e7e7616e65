-- ===== src/Modbus/Methods.antt =====
-- The byte-order methods of `Collector` (pkg/modbus/collector.go), which repeat the functions of
-- byteorder.go. A float is its bit pattern.
pub mod Same
use mbsscaner.Prelude.{
  ℕ, suc, ◌+◌, ℤ, signed, unsigned, List, [], ◌∷◌, Bool, true, false, map, Option, none, some,
  length, get_elem?, set, drop, ltb, if◌then◌else◌,
}
use mbsscaner.Config.Types.{ByteOrder, big, little, middle, swap, other}
use mbsscaner.Modbus.Words.{
  put_uint16_be, put_uint16_le, uint16_be, bytes32_be, bytes64_be, uint32_be, uint32_le, swap_bytes,
}
use mbsscaner.Modbus.ByteOrder.{swap_bytes_in_registers, swap_register_pairs, swap_register_pairs64}

-- `xs[i]`, for an index that the code has checked or that the length of the slice allows.
abbrev at : List ℕ → ℕ → ℕ
at xs i = elim (get_elem? xs i) [ none ↦ 0 | some v ↦ v ]

-- `binary.BigEndian.Uint16(bytes[i:i+2])`.
abbrev uint16_at : List ℕ → ℕ → ℕ
uint16_at bytes i = uint16_be (at bytes i) (at bytes (suc i))

-- `regs[i] = (regs[i] >> 8) | ((regs[i] & 0xFF) << 8)`.
abbrev swap_at : ℕ → List ℕ → List ℕ
swap_at i regs = set regs i (swap_bytes (at regs i))

-- `temp` with a register in it, whose two bytes go into `bytes` from `i` on, the second first.
abbrev put_exchanged : List ℕ → ℕ → ℕ → List ℕ
put_exchanged bytes i r =
    let temp = put_uint16_be (0 ∷ 0 ∷ []) 0 r in set (set bytes i (at temp 1)) (suc i) (at temp 0)

-- The `switch` of `putBytesWithOrder`.
unfoldable pub put_pair : List ℕ → List ℕ → ByteOrder → List ℕ
put_pair bytes registers big =
    put_uint16_be (put_uint16_be bytes 0 (at registers 0)) 2 (at registers 1)
put_pair bytes registers little =
    let swapped_reg0 = swap_bytes (at registers 0) in
    let swapped_reg1 = swap_bytes (at registers 1) in
    put_uint16_le (put_uint16_le bytes 0 swapped_reg0) 2 swapped_reg1
put_pair bytes registers swap =
    let swapped_reg0 = swap_bytes (at registers 0) in
    let swapped_reg1 = swap_bytes (at registers 1) in
    put_uint16_be (put_uint16_be bytes 0 swapped_reg0) 2 swapped_reg1
put_pair bytes registers middle =
    put_uint16_be (put_uint16_be bytes 0 (at registers 1)) 2 (at registers 0)
put_pair bytes registers (other s) = bytes

unfoldable pub put_bytes_with_order : List ℕ → List ℕ → ByteOrder → List ℕ
unfolding put_pair
put_bytes_with_order bytes registers order =
    if ltb (length registers) 2 then bytes else put_pair bytes registers order

unfoldable pub get_int32_with_order : List ℕ → ByteOrder → ℤ
get_int32_with_order bytes big = signed 0x8000_0000 (uint32_be bytes)
get_int32_with_order bytes little = signed 0x8000_0000 (uint32_le bytes)
get_int32_with_order bytes swap = signed 0x8000_0000 (uint32_be bytes)
get_int32_with_order bytes middle = signed 0x8000_0000 (uint32_be bytes)
get_int32_with_order bytes (other s) = signed 0x8000_0000 (uint32_be bytes)

unfoldable pub get_uint32_with_order : List ℕ → ByteOrder → ℕ
get_uint32_with_order bytes big = uint32_be bytes
get_uint32_with_order bytes little = uint32_le bytes
get_uint32_with_order bytes swap = uint32_be bytes
get_uint32_with_order bytes middle = uint32_be bytes
get_uint32_with_order bytes (other s) = uint32_be bytes

-- Two registers, at `i` and behind it, in network order.
abbrev put_two : List ℕ → ℕ → ℕ → ℕ → List ℕ
put_two bytes i r r' = put_uint16_be (put_uint16_be bytes i r) (2 + i) r'

-- The `switch` of `putFloat64BytesWithOrder`.
unfoldable pub put_four : List ℕ → List ℕ → ByteOrder → List ℕ
put_four bytes registers big =
    put_two (put_two bytes 0 (at registers 0) (at registers 1)) 4 (at registers 2) (at registers 3)
put_four bytes registers little =
    let swapped_reg0 = swap_bytes (at registers 0) in
    let swapped_reg1 = swap_bytes (at registers 1) in
    let swapped_reg2 = swap_bytes (at registers 2) in
    let swapped_reg3 = swap_bytes (at registers 3) in
    put_uint16_le
      (put_uint16_le (put_uint16_le (put_uint16_le bytes 0 swapped_reg0) 2 swapped_reg1) 4
        swapped_reg2)
      6 swapped_reg3
put_four bytes registers swap =
    put_exchanged
      (put_exchanged (put_exchanged (put_exchanged bytes 0 (at registers 0)) 2 (at registers 1)) 4
        (at registers 2))
      6 (at registers 3)
put_four bytes registers middle =
    put_two (put_two bytes 0 (at registers 2) (at registers 3)) 4 (at registers 0) (at registers 1)
put_four bytes registers (other s) = bytes

unfoldable pub put_float64_bytes_with_order : List ℕ → List ℕ → ByteOrder → List ℕ
unfolding put_four
put_float64_bytes_with_order bytes registers order =
    if ltb (length registers) 4 then bytes else put_four bytes registers order

-- The final `return` of the 32-bit writers, and that of `float64ToRegisters`.
abbrev two_registers : List ℕ → List ℕ
two_registers bytes = uint16_at bytes 0 ∷ uint16_at bytes 2 ∷ []

abbrev four_registers : List ℕ → List ℕ
four_registers bytes =
    uint16_at bytes 0 ∷ uint16_at bytes 2 ∷ uint16_at bytes 4 ∷ uint16_at bytes 6 ∷ []

-- `regs` of the little-endian branches, from the last register to the first.
abbrev regs32 : List ℕ → List ℕ
regs32 bytes = uint16_at bytes 2 ∷ uint16_at bytes 0 ∷ []

abbrev regs64 : List ℕ → List ℕ
regs64 bytes = uint16_at bytes 6 ∷ uint16_at bytes 4 ∷ uint16_at bytes 2 ∷ uint16_at bytes 0 ∷ []

unfoldable pub int32_to_registers : ℤ → ByteOrder → List ℕ
unfolding swap_bytes_in_registers swap_register_pairs swap_bytes
int32_to_registers value big = two_registers (bytes32_be (unsigned 0x8000_0000 value))
int32_to_registers value little =
    swap_at 1 (swap_at 0 (regs32 (bytes32_be (unsigned 0x8000_0000 value))))
int32_to_registers value swap =
    two_registers (swap_bytes_in_registers (bytes32_be (unsigned 0x8000_0000 value)))
int32_to_registers value middle =
    two_registers (swap_register_pairs (bytes32_be (unsigned 0x8000_0000 value)))
int32_to_registers value (other s) = two_registers (bytes32_be (unsigned 0x8000_0000 value))

unfoldable pub uint32_to_registers : ℕ → ByteOrder → List ℕ
unfolding swap_bytes_in_registers swap_register_pairs swap_bytes
uint32_to_registers value big = two_registers (bytes32_be value)
uint32_to_registers value little = swap_at 1 (swap_at 0 (regs32 (bytes32_be value)))
uint32_to_registers value swap = two_registers (swap_bytes_in_registers (bytes32_be value))
uint32_to_registers value middle = two_registers (swap_register_pairs (bytes32_be value))
uint32_to_registers value (other s) = two_registers (bytes32_be value)

unfoldable pub float32_to_registers : ℕ → ByteOrder → List ℕ
unfolding swap_bytes_in_registers swap_register_pairs swap_bytes
float32_to_registers bits big = two_registers (bytes32_be bits)
float32_to_registers bits little = swap_at 1 (swap_at 0 (regs32 (bytes32_be bits)))
float32_to_registers bits swap = two_registers (swap_bytes_in_registers (bytes32_be bits))
float32_to_registers bits middle = two_registers (swap_register_pairs (bytes32_be bits))
float32_to_registers bits (other s) = two_registers (bytes32_be bits)

unfoldable pub float64_to_registers : ℕ → ByteOrder → List ℕ
unfolding swap_bytes_in_registers swap_register_pairs64 swap_bytes
float64_to_registers bits big = four_registers (bytes64_be bits)
float64_to_registers bits little = map swap_bytes (regs64 (bytes64_be bits))
float64_to_registers bits swap = four_registers (swap_bytes_in_registers (bytes64_be bits))
float64_to_registers bits middle = four_registers (swap_register_pairs64 (bytes64_be bits))
float64_to_registers bits (other s) = four_registers (bytes64_be bits)
