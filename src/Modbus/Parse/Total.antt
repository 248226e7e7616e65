-- ===== src/Modbus/Parse/Total.antt =====
-- When `parseRegistersForPoint` (pkg/modbus/collector.go) panics.
use mathlib.Core.Path.{subst}
use mbsscaner.Prelude.{
  sym, ◌∙◌, ℕ, ◌≤◌, ◌<◌, ◌≡◌, refl, List, [], ◌∷◌, length, arith, ltb, lt→ltb, ltb→lt, Bool-cases,
  inl, inr, ◌↔◌,
}
use mbsscaner.Config.Types.{DataType, ByteOrder, Point}
use mbsscaner.Modbus.Result.{Result, ok, err, panics, insufficient_registers}
use mbsscaner.Modbus.Value.{Value}
use mbsscaner.Modbus.Parse.{parse_as, parse_registers_for_point, with_registers, device_byte_order}

-- No panic.
abbrev pub Settled {ℓ} : {A : Type ℓ} → Result A → Type 0
Settled (ok a) = Unit
Settled (err e) = Unit
Settled panics = ⊥

with_registers-Settled :
    (registers : List ℕ) (n : ℕ) (v : Value) → Settled (with_registers registers n v)
with_registers-Settled registers n v = elim (Bool-cases (ltb (length registers) n)) [
  | inl few ↦ rw few tt
  | inr enough ↦ rw enough tt
]

parse_as-Settled :
    (t : DataType) (order : ByteOrder) (registers : List ℕ)
    → 1 ≤ length registers
    → Settled (parse_as t order registers)
unfolding parse_as
parse_as-Settled t order [] h = absurd (omega arith)
parse_as-Settled DataType.int16 order (r ∷ rs) h = tt
parse_as-Settled DataType.uint16 order (r ∷ rs) h = tt
parse_as-Settled DataType.bool order (r ∷ rs) h = tt
parse_as-Settled DataType.string order (r ∷ rs) h = tt
parse_as-Settled (DataType.other s) order (r ∷ rs) h = tt
parse_as-Settled DataType.int32 order (r ∷ rs) h = with_registers-Settled (r ∷ rs) 2 _
parse_as-Settled DataType.uint32 order (r ∷ rs) h = with_registers-Settled (r ∷ rs) 2 _
parse_as-Settled DataType.float32 order (r ∷ rs) h = with_registers-Settled (r ∷ rs) 2 _
parse_as-Settled DataType.float64 order (r ∷ rs) h = with_registers-Settled (r ∷ rs) 4 _

pub parse-Settled :
    (order : ByteOrder) (p : Point) (registers : List ℕ)
    → 1 ≤ length registers
    → Settled (parse_registers_for_point order p registers)
unfolding parse_registers_for_point
parse-Settled order p registers h = elim (Bool-cases (ltb (length registers) p.length)) [
  | inl few ↦ rw few tt
  | inr enough ↦ rw enough (parse_as-Settled p.data_type (device_byte_order order) registers h)
]

-- The data types whose parser looks at the first register without a check.
abbrev pub TakesFirst : DataType → Type 0
TakesFirst DataType.int16 = Unit
TakesFirst DataType.uint16 = Unit
TakesFirst DataType.bool = Unit
TakesFirst _ = ⊥

parse_as_empty : (t : DataType) (order : ByteOrder) → (parse_as t order [] ≡ panics) ↔ TakesFirst t
unfolding parse_as
parse_as_empty DataType.int16 order = (λ h. tt, λ h. refl)
parse_as_empty DataType.uint16 order = (λ h. tt, λ h. refl)
parse_as_empty DataType.bool order = (λ h. tt, λ h. refl)
parse_as_empty DataType.int32 order = (λ h. cc, λ h. elim h [ ])
parse_as_empty DataType.uint32 order = (λ h. cc, λ h. elim h [ ])
parse_as_empty DataType.float32 order = (λ h. cc, λ h. elim h [ ])
parse_as_empty DataType.float64 order = (λ h. cc, λ h. elim h [ ])
parse_as_empty DataType.string order = (λ h. cc, λ h. elim h [ ])
parse_as_empty (DataType.other s) order = (λ h. cc, λ h. elim h [ ])

parse_empty :
    (order : ByteOrder) (p : Point)
    → p.length ≡ 0
    → parse_registers_for_point order p [] ≡ parse_as p.data_type (device_byte_order order) []
unfolding parse_registers_for_point
parse_empty order p h = simp h

parse_empty_short :
    (order : ByteOrder) (p : Point)
    → 0 < p.length
    → parse_registers_for_point order p [] ≡ err (insufficient_registers p.length 0)
unfolding parse_registers_for_point
parse_empty_short order p h = rw (lt→ltb 0 p.length h)

-- The parser panics exactly if the point has length 0, the slice of registers that it is given is
-- empty, and the data type is int16, uint16 or bool.
pub parse_panics_iff :
    (order : ByteOrder) (p : Point) (registers : List ℕ)
    → (parse_registers_for_point order p registers ≡ panics)
      ↔ ((p.length ≡ 0) × (registers ≡ []) × TakesFirst p.data_type)
parse_panics_iff order p (r ∷ rs) =
    (λ h. absurd (subst Settled h (parse-Settled order p (r ∷ rs) (omega arith))), λ h. cc (h.1))
parse_panics_iff order p [] = elim (Bool-cases (ltb 0 p.length)) [
  | inl long ↦
      let short = parse_empty_short order p (ltb→lt 0 p.length long) in
      (λ h. cc (short), λ h. absurd (omega (arith, ltb→lt 0 p.length long, h.0)))
  | inr zero_length ↦
      let none_needed : p.length ≡ 0 = ground arith in
      let e = parse_empty order p none_needed in
      let iff = parse_as_empty p.data_type (device_byte_order order) in
      (λ h. (none_needed, refl, iff.0 (sym e ∙ h)), λ h. e ∙ iff.1 h.2)
]
