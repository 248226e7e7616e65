-- ===== src/Modbus/ByteOrder/Layout.antt =====
-- Where each byte order puts the bytes of a value, against the letters in the table of
-- docs/byte_order.md, for pkg/modbus/byteorder.go.
use mbsscaner.Prelude.{
  ℕ, ◌/◌, ◌%◌, ◌<◌, ◌≡◌, ◌↔◌, refl, sym, subst, List, [], ◌∷◌, arith, String, ap, ◌∙◌,
}
use mbsscaner.Config.Types.{ByteOrder, big, little, middle, swap, other}
use mbsscaner.Modbus.Words.{
  IsRegister, swap_bytes, swap_bytes-pair, swap_bytes-sum, uint16_be, uint32_be, bytes32_be,
}
use mbsscaner.Modbus.ByteOrder.{
  uint32_to_registers, put_bytes_with_order, get_uint32_with_order, registers_be, registers_little,
  swap_bytes_in_registers, swap_register_pairs,
}
use mbsscaner.Modbus.ByteOrder.RoundTrip.{IsNamed, zeroes}

abbrev pub IsByte : ℕ → Type 0
IsByte b = b < 0x100

-- The letters in the table of the document: ABCD, DCBA, BADC, CDAB, two to a register.
abbrev pub lettered32 : ℕ → ℕ → ℕ → ℕ → ByteOrder → List ℕ
lettered32 a b c d little = uint16_be d c ∷ uint16_be b a ∷ []
lettered32 a b c d swap = uint16_be b a ∷ uint16_be d c ∷ []
lettered32 a b c d middle = uint16_be c d ∷ uint16_be a b ∷ []
lettered32 a b c d _ = uint16_be a b ∷ uint16_be c d ∷ []

-- The bytes of a word that is given by its bytes.
module _ (a b c d : ℕ) (hb : IsByte b) (hc : IsByte c) (hd : IsByte d) where
  abbrev word : ℕ
  word = uint32_be (a ∷ b ∷ c ∷ d ∷ [])

  byte0 : IsByte a → word / 0x100_0000 % 256 ≡ a
  byte0 ha = omega arith

  byte1 : word / 0x1_0000 % 256 ≡ b
  byte1 = omega arith

  byte2 : word / 0x100 % 256 ≡ c
  byte2 = omega arith

  byte3 : word % 256 ≡ d
  byte3 = omega arith

  bytes32_be-uint32_be : IsByte a → bytes32_be word ≡ a ∷ b ∷ c ∷ d ∷ []
  bytes32_be-uint32_be ha = rw (byte0 ha, byte1, byte2, byte3)

-- The registers, for each order.
uint32_to_registers-lettered32 :
    (a b c d : ℕ) (order : ByteOrder)
    → IsByte a
    → IsByte b
    → IsByte c
    → IsByte d
    → uint32_to_registers (uint32_be (a ∷ b ∷ c ∷ d ∷ [])) order ≡ lettered32 a b c d order
unfolding uint32_to_registers
uint32_to_registers-lettered32 a b c d big ha hb hc hd =
    ap registers_be (bytes32_be-uint32_be a b c d hb hc hd ha)
uint32_to_registers-lettered32 a b c d little ha hb hc hd =
    ap registers_little (bytes32_be-uint32_be a b c d hb hc hd ha)
    ∙ rw (swap_bytes-pair c d hc hd, swap_bytes-pair a b ha hb)
uint32_to_registers-lettered32 a b c d swap ha hb hc hd =
    ap (λ bytes. registers_be (swap_bytes_in_registers bytes))
      (bytes32_be-uint32_be a b c d hb hc hd ha)
uint32_to_registers-lettered32 a b c d middle ha hb hc hd =
    ap (λ bytes. registers_be (swap_register_pairs bytes))
      (bytes32_be-uint32_be a b c d hb hc hd ha)
uint32_to_registers-lettered32 a b c d (other s) ha hb hc hd =
    ap registers_be (bytes32_be-uint32_be a b c d hb hc hd ha)

-- Two registers are equal exactly if their bytes are.
uint16_be-injective :
    (a b c d : ℕ) → IsByte b → IsByte d → uint16_be a b ≡ uint16_be c d → (a ≡ c) × (b ≡ d)
uint16_be-injective a b c d hb hd e = (omega arith, omega arith)

first_of : {r0 r1 s0 s1 : ℕ} → r0 ∷ r1 ∷ [] ≡ s0 ∷ s1 ∷ [] → r0 ≡ s0
first_of e = cc e

reversed :
    (a b c d : ℕ)
    → IsByte b
    → IsByte c
    → (uint16_be d c ∷ uint16_be b a ∷ [] ≡ uint16_be a b ∷ uint16_be c d ∷ [])
      ↔ ((a ≡ d) × (b ≡ c))
reversed a b c d hb hc = (
  λ e. let (x, y) = uint16_be-injective d c a b hc hb (first_of e) in (sym x, sym y),
  λ e.
      subst (λ x. uint16_be x c ∷ uint16_be b a ∷ [] ≡ uint16_be a b ∷ uint16_be c x ∷ []) e.0
        (subst (λ x. uint16_be a x ∷ uint16_be b a ∷ [] ≡ uint16_be a b ∷ uint16_be x a ∷ []) e.1
          refl),
)

-- The registers of the word with the bytes A, B, C, D are those that the letters in the table of the
-- document say for each of its four orders: ABCD, DCBA, BADC and CDAB. For any other text they are
-- those of `big`. For `little` the document's section on that order shows the registers AB and CD
-- instead: the code makes these exactly for a word whose bytes read the same backwards.
pub uint32_to_registers-lettered :
    (a b c d : ℕ) (order : ByteOrder)
    → IsByte a
    → IsByte b
    → IsByte c
    → IsByte d
    → (uint32_to_registers (uint32_be (a ∷ b ∷ c ∷ d ∷ [])) order ≡ lettered32 a b c d order)
      × ((uint32_to_registers (uint32_be (a ∷ b ∷ c ∷ d ∷ [])) little
            ≡ uint16_be a b ∷ uint16_be c d ∷ [])
          ↔ ((a ≡ d) × (b ≡ c)))
uint32_to_registers-lettered a b c d order ha hb hc hd = (
  uint32_to_registers-lettered32 a b c d order ha hb hc hd,
  subst (λ r. (r ≡ uint16_be a b ∷ uint16_be c d ∷ []) ↔ ((a ≡ d) × (b ≡ c)))
      (sym (uint32_to_registers-lettered32 a b c d little ha hb hc hd)) (reversed a b c d hb hc),
)

-- The word that the reader makes of two registers in the order.
abbrev pub read32 : List ℕ → ByteOrder → ℕ
read32 registers order =
    get_uint32_with_order (put_bytes_with_order (zeroes 4) registers order) order

swap_low : (r : ℕ) → IsRegister r → swap_bytes r % 256 ≡ r / 256
swap_low r h = omega (arith, swap_bytes-sum r h)

swap_high : (r : ℕ) → IsRegister r → swap_bytes r / 256 % 256 ≡ r % 256
swap_high r h = omega (arith, swap_bytes-sum r h)

high_byte : (r : ℕ) → IsRegister r → r / 256 % 256 ≡ r / 256
high_byte r h = omega arith

joined : (r : ℕ) → uint16_be (r / 256) (r % 256) ≡ r
joined r = omega arith

-- Reading two registers in a named order and writing the value in that order gives them back: no
-- two contents of the registers are read as the same value.
pub registers_round_trip :
    (r0 r1 : ℕ) (order : ByteOrder)
    → IsRegister r0
    → IsRegister r1
    → IsNamed order
    → uint32_to_registers (read32 (r0 ∷ r1 ∷ []) order) order ≡ r0 ∷ r1 ∷ []
unfolding put_bytes_with_order get_uint32_with_order
registers_round_trip r0 r1 big h0 h1 n =
    rw (high_byte r0 h0, high_byte r1 h1)
      (uint32_to_registers-lettered32 (r0 / 256) (r0 % 256) (r1 / 256) (r1 % 256) big (omega arith)
          (omega arith) (omega arith) (omega arith)
        ∙ rw (joined r0, joined r1))
registers_round_trip r0 r1 little h0 h1 n =
    rw (swap_low r0 h0, swap_high r0 h0, swap_low r1 h1, swap_high r1 h1)
      (uint32_to_registers-lettered32 (r1 % 256) (r1 / 256) (r0 % 256) (r0 / 256) little
          (omega arith) (omega arith) (omega arith) (omega arith)
        ∙ rw (joined r0, joined r1))
registers_round_trip r0 r1 swap h0 h1 n =
    rw (swap_low r0 h0, swap_high r0 h0, swap_low r1 h1, swap_high r1 h1)
      (uint32_to_registers-lettered32 (r0 % 256) (r0 / 256) (r1 % 256) (r1 / 256) swap (omega arith)
          (omega arith) (omega arith) (omega arith)
        ∙ rw (joined r0, joined r1))
registers_round_trip r0 r1 middle h0 h1 n =
    rw (high_byte r0 h0, high_byte r1 h1)
      (uint32_to_registers-lettered32 (r1 / 256) (r1 % 256) (r0 / 256) (r0 % 256) middle
          (omega arith) (omega arith) (omega arith) (omega arith)
        ∙ rw (joined r0, joined r1))
registers_round_trip r0 r1 (other s) h0 h1 n = elim n [ ]

-- The functions of byteorder.go take the order as it is given: in one that is none of the four
-- constants, the empty text included, they read 0 whatever the registers hold, while they write
-- as in `big`.
pub unnamed_order_reads_zero :
    (s : String) (registers : List ℕ) (v : ℕ)
    → (read32 registers (other s) ≡ 0)
      × (uint32_to_registers v (other s) ≡ uint32_to_registers v big)
unfolding uint32_to_registers put_bytes_with_order get_uint32_with_order
unnamed_order_reads_zero s [] v = (refl, refl)
unnamed_order_reads_zero s (r ∷ []) v = (refl, refl)
unnamed_order_reads_zero s (r ∷ r' ∷ rest) v = (refl, refl)
