-- ===== src/Config/Text/Decimal.antt =====
-- Decimal numbers and blanks, for the text functions of config/points.go.
use Prim.Native.Char.{code}
use Prim.Native.Nat.{compare, Ordering}
use mbsscaner.Prelude.{
  ℕ, zero, suc, ◌+◌, ◌-◌, ◌*◌, ◌/◌, ◌%◌, ◌^◌, ◌≤◌, ◌<◌, ◌≡◌, refl, ◌∙◌, String, Bool, true, false,
  some, arith, if◌then◌else◌, ◌==◌, Bool-cases, inl, inr,
}
use mbsscaner.Config.Text.{
  is_space, trim, trim_left, trim_right, keep, char_by, char_of, scan_uint, parse_uint,
}
use native.Mathlib.Nat.{pow-suc}

-- The decimal digits of n before `out`, for n below 10 ^ fuel.
digits : ℕ → ℕ → String → String
digits zero n out = out
digits (suc fuel) n out =
    let more = digits fuel (n / 10) (String.◌∷◌ (char_of (b'0' + n % 10)) out) in
    if n == 0 then out else more

-- A number of 16 bits in decimal.
unfoldable pub decimal : ℕ → String
unfolding digits
decimal n = if n == 0 then "0" else digits 5 n ""

code-char_by :
    (o : Ordering) (n : ℕ) (e : compare n 0xd800 ≡ o) → n < 0xd800 → code (char_by o n e) ≡ n
code-char_by Ordering.lt n e h = refl
code-char_by Ordering.eq n e h = ground arith
code-char_by Ordering.gt n e h = ground arith

code-char_of : (n : ℕ) → n < 0xd800 → code (char_of n) ≡ n
code-char_of n h = code-char_by (compare n 0xd800) n refl h

-- No character is a blank.
abbrev pub IsSolid : String → Type 0
IsSolid String.[] = Unit
IsSolid (String.◌∷◌ c s) = (is_space (code c) ≡ false) × IsSolid s

trim_left-IsSolid : (s : String) → IsSolid s → trim_left s ≡ s
unfolding trim_left
trim_left-IsSolid String.[] h = refl
trim_left-IsSolid (String.◌∷◌ c s) h = rw h.0 refl

trim_right-IsSolid : (s : String) → IsSolid s → trim_right s ≡ s
unfolding trim_right
trim_right-IsSolid String.[] h = refl
trim_right-IsSolid (String.◌∷◌ c s) h = rw (trim_right-IsSolid s h.1) (kept s)
  where
    kept : (t : String) → keep c t ≡ String.◌∷◌ c t
    kept String.[] = rw h.0 refl
    kept (String.◌∷◌ d t) = refl

pub trim-IsSolid : (s : String) → IsSolid s → trim s ≡ s
unfolding trim
trim-IsSolid s h = rw (trim_left-IsSolid s h) (trim_right-IsSolid s h)

digit_is_solid : (n : ℕ) → is_space (code (char_of (b'0' + n % 10))) ≡ false
unfolding is_space
digit_is_solid n =
    let e : code (char_of (b'0' + n % 10)) ≡ b'0' + n % 10 =
      code-char_of (b'0' + n % 10) (omega arith) in
    rw e (ground arith)

digits-IsSolid : (fuel n : ℕ) (out : String) → IsSolid out → IsSolid (digits fuel n out)
unfolding digits
digits-IsSolid zero n out h = h
digits-IsSolid (suc fuel) n out h = elim (Bool-cases (n == 0)) [
  | inl e ↦ rw e h
  | inr e ↦ rw e (digits-IsSolid fuel (n / 10) _ (digit_is_solid n, h))
]

IsSolid-either : (b : Bool) (s t : String) → IsSolid s → IsSolid t → IsSolid (if b then s else t)
IsSolid-either true s t h k = h
IsSolid-either false s t h k = k

zero-IsSolid : IsSolid "0"
unfolding is_space
zero-IsSolid = (refl, tt)

pub decimal-IsSolid : (n : ℕ) → IsSolid (decimal n)
unfolding decimal
decimal-IsSolid n =
    IsSolid-either (n == 0) "0" (digits 5 n "") zero-IsSolid (digits-IsSolid 5 n "" tt)

scan_last :
    (n : ℕ) (out : String)
    → n ≤ 0xffff
    → scan_uint (String.◌∷◌ (char_of (b'0' + n % 10)) out) (n / 10) ≡ scan_uint out n
unfolding scan_uint
scan_last n out h =
    let e : code (char_of (b'0' + n % 10)) ≡ b'0' + n % 10 =
      code-char_of (b'0' + n % 10) (omega arith) in
    let f : n / 10 * 10 + (b'0' + n % 10 - b'0') ≡ n = omega arith in rw e (rw f (ground arith))

scan_uint-digits :
    (fuel n : ℕ) (out : String)
    → n ≤ 0xffff
    → n < 10 ^ fuel
    → scan_uint (digits fuel n out) 0 ≡ scan_uint out n
unfolding digits
scan_uint-digits zero n out h f = let e : n ≡ 0 = omega arith in rw e refl
scan_uint-digits (suc fuel) n out h f = elim (Bool-cases (n == 0)) [
  | inl e ↦ let z : n ≡ 0 = ground arith in rw e (rw z refl)
  | inr e ↦ rw e (
      scan_uint-digits fuel (n / 10) _ (omega arith) (omega (arith, pow-suc 10 fuel))
      ∙ scan_last n out h)
]

-- A text that is not empty.
abbrev pub Present : String → Type 0
Present String.[] = ⊥
Present (String.◌∷◌ c s) = Unit

digits-Present : (fuel n : ℕ) (out : String) → Present out → Present (digits fuel n out)
unfolding digits
digits-Present zero n out h = h
digits-Present (suc fuel) n out h = elim (Bool-cases (n == 0)) [
  | inl e ↦ rw e h
  | inr e ↦ rw e (digits-Present fuel (n / 10) _ tt)
]

digits_positive : (fuel n : ℕ) → (n == 0) ≡ false → Present (digits (suc fuel) n "")
unfolding digits
digits_positive fuel n e = rw e (digits-Present fuel (n / 10) _ tt)

pub decimal-Present : (n : ℕ) → Present (decimal n)
unfolding decimal
decimal-Present n = go (n == 0) refl
  where
    go : (b : Bool) → (n == 0) ≡ b → Present (if b then "0" else digits 5 n "")
    go true e = tt
    go false e = digits_positive 4 n e

parse_uint-scan_uint : (s : String) → Present s → parse_uint s ≡ scan_uint s 0
unfolding parse_uint
parse_uint-scan_uint String.[] h = elim h [ ]
parse_uint-scan_uint (String.◌∷◌ c s) h = refl

scan_uint-nil : (n : ℕ) → scan_uint "" n ≡ some n
unfolding scan_uint
scan_uint-nil n = refl

zero_digit : scan_uint "0" 0 ≡ some 0
unfolding scan_uint
zero_digit = refl

-- `ParseUint` reads every number of 16 bits back from its decimal digits.
pub parse_uint-decimal : (n : ℕ) → n < 0x1_0000 → parse_uint (decimal n) ≡ some n
unfolding decimal
parse_uint-decimal n h = parse_uint-scan_uint (decimal n) (decimal-Present n) ∙ go (n == 0) refl
  where
    go : (b : Bool) → (n == 0) ≡ b → scan_uint (if b then "0" else digits 5 n "") 0 ≡ some n
    go true e = let z : n ≡ 0 = ground arith in rw z zero_digit
    go false e = scan_uint-digits 5 n "" (omega arith) (omega arith) ∙ scan_uint-nil n
