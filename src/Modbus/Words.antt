-- ===== src/Modbus/Words.antt =====
-- What pkg/modbus uses of encoding/binary, over byte slices as lists of numbers below 256, and the
-- exchange of the two bytes of a register that the sources write out in place.
use Prim.Native.Nat.{bit_and, bit_or}
use mbsscaner.Prelude.{
  ℕ, suc, ◌+◌, ◌*◌, ◌/◌, ◌%◌, ◌<◌, ◌≡◌, List, [], ◌∷◌, arith, set, bit_or_bytes, bit_and_byte,
}

-- A register, and a double and a quadruple word.
abbrev pub IsRegister : ℕ → Type 0
IsRegister r = r < 0x1_0000

abbrev pub IsWord32 : ℕ → Type 0
IsWord32 v = v < 0x1_0000_0000

abbrev pub IsWord64 : ℕ → Type 0
IsWord64 v = v < 0x1_0000_0000_0000_0000

-- `binary.BigEndian.PutUint16(bytes[i:i+2], v)`; the callers pass slices that hold both bytes.
abbrev pub put_uint16_be : List ℕ → ℕ → ℕ → List ℕ
put_uint16_be bytes i v = set (set bytes i (v / 256 % 256)) (suc i) (v % 256)

-- `binary.LittleEndian.PutUint16(bytes[i:i+2], v)`.
abbrev pub put_uint16_le : List ℕ → ℕ → ℕ → List ℕ
put_uint16_le bytes i v = set (set bytes i (v % 256)) (suc i) (v / 256 % 256)

-- `binary.BigEndian.Uint16` of two bytes.
abbrev pub uint16_be : ℕ → ℕ → ℕ
uint16_be a b = a * 0x100 + b

-- `binary.BigEndian.PutUint32` and `PutUint64`, as the bytes that they store.
abbrev pub bytes32_be : ℕ → List ℕ
bytes32_be v = (v / 0x100_0000 % 256) ∷ (v / 0x1_0000 % 256) ∷ (v / 0x100 % 256) ∷ (v % 256) ∷ []

abbrev pub bytes64_be : ℕ → List ℕ
bytes64_be v =
    (v / 0x100_0000_0000_0000 % 256)
    ∷ (v / 0x1_0000_0000_0000 % 256)
    ∷ (v / 0x100_0000_0000 % 256)
    ∷ (v / 0x1_0000_0000 % 256)
    ∷ bytes32_be v

-- `binary.BigEndian.Uint32` and `binary.LittleEndian.Uint32`; 0 where Go would panic on a slice
-- that is too short, which no caller passes.
abbrev pub uint32_be : List ℕ → ℕ
uint32_be (a ∷ b ∷ c ∷ d ∷ _) = a * 0x100_0000 + b * 0x1_0000 + c * 0x100 + d
uint32_be _ = 0

abbrev pub uint32_le : List ℕ → ℕ
uint32_le (a ∷ b ∷ c ∷ d ∷ _) = d * 0x100_0000 + c * 0x1_0000 + b * 0x100 + a
uint32_le _ = 0

abbrev pub uint64_be : List ℕ → ℕ
uint64_be (a ∷ b ∷ c ∷ d ∷ rest) = uint32_be (a ∷ b ∷ c ∷ d ∷ []) * 0x1_0000_0000 + uint32_be rest
uint64_be _ = 0

abbrev pub uint64_le : List ℕ → ℕ
uint64_le (a ∷ b ∷ c ∷ d ∷ rest) = uint32_le rest * 0x1_0000_0000 + uint32_le (a ∷ b ∷ c ∷ d ∷ [])
uint64_le _ = 0

-- `(r >> 8) | ((r & 0xFF) << 8)` on a uint16, which drops what is shifted past 16 bits.
unfoldable pub swap_bytes : ℕ → ℕ
swap_bytes r = bit_or (r / 0x100) (bit_and r 0xff * 0x100 % 0x1_0000)

pub swap_bytes-sum : (r : ℕ) → IsRegister r → swap_bytes r ≡ r / 256 + r % 256 * 256
unfolding swap_bytes
swap_bytes-sum r h =
    let fits : r % 256 * 256 % 0x1_0000 ≡ r % 256 * 256 = omega arith in
    rw (bit_and_byte r, fits) (bit_or_bytes (r / 256) (r % 256) (omega arith))

pub swap_bytes-IsRegister : (r : ℕ) → IsRegister r → IsRegister (swap_bytes r)
swap_bytes-IsRegister r h = omega (arith, swap_bytes-sum r h)

-- Exchanging the bytes twice gives the register back.
pub swap_bytes-swap_bytes : (r : ℕ) → IsRegister r → swap_bytes (swap_bytes r) ≡ r
swap_bytes-swap_bytes r h =
    omega (arith, swap_bytes-sum r h, swap_bytes-sum (swap_bytes r) (swap_bytes-IsRegister r h))

-- The exchange of a register that is given by its two bytes.
pub swap_bytes-pair : (a b : ℕ) → a < 256 → b < 256 → swap_bytes (uint16_be a b) ≡ uint16_be b a
swap_bytes-pair a b ha hb = omega (arith, swap_bytes-sum (a * 256 + b) (omega arith))
