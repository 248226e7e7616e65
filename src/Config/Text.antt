-- ===== src/Config/Text.antt =====
-- What the sources use of Go's strings and strconv: `TrimSpace`, `ToLower` and `ParseUint` in base 10
-- with 16 bits. Text is a sequence of code points; `lower_rune` is `unicode.ToLower` beyond ASCII, a
-- table of the Unicode standard that is a parameter.
pub mod Decimal
use Prim.Native.Char.{Char, char, code, nul, IsScalar}
use Prim.Native.Nat.{compare, Ordering}
use mbsscaner.Prelude.{
  ℕ, ◌+◌, ◌-◌, ◌*◌, ◌≡◌, refl, String, Bool, true, false, ◌&&◌, ◌||◌, Option, none, some, ltb, leb,
  ◌==◌, if◌then◌else◌,
}

-- `unicode.IsSpace`.
unfoldable pub is_space : ℕ → Bool
is_space c =
    (leb 9 c && leb c 13)
    || c == 0x20
    || c == 0x85
    || c == 0xa0
    || c == 0x1680
    || (leb 0x2000 c && leb c 0x200a)
    || c == 0x2028
    || c == 0x2029
    || c == 0x202f
    || c == 0x205f
    || c == 0x3000

unfoldable pub trim_left : String → String
unfolding is_space
trim_left String.[] = ""
trim_left (String.◌∷◌ c s) = if is_space (code c) then trim_left s else String.◌∷◌ c s

-- A blank before nothing is dropped.
abbrev pub keep : Char → String → String
keep c String.[] = if is_space (code c) then "" else String.◌∷◌ c ""
keep c (String.◌∷◌ d s) = String.◌∷◌ c (String.◌∷◌ d s)

unfoldable pub trim_right : String → String
unfolding is_space
trim_right String.[] = ""
trim_right (String.◌∷◌ c s) = keep c (trim_right s)

unfoldable pub trim : String → String
unfolding trim_left trim_right
trim s = trim_right (trim_left s)

-- The character of a code point below the surrogates.
abbrev pub char_by : (o : Ordering) (n : ℕ) → compare n 0xd800 ≡ o → Char
char_by Ordering.lt n e = char n (rw e tt)
char_by Ordering.eq n e = nul
char_by Ordering.gt n e = nul

abbrev pub char_of : ℕ → Char
char_of n = char_by (compare n 0xd800) n refl

module _ (lower_rune : Char → Char) where
  unfoldable pub lower_char : Char → Char
  lower_char c =
      if leb 0x80 (code c)
      then lower_rune c
      else if leb b'A' (code c) && leb (code c) b'Z'
      then char_of (code c + 32)
      else c

  unfoldable pub to_lower : String → String
  unfolding lower_char
  to_lower String.[] = ""
  to_lower (String.◌∷◌ c s) = String.◌∷◌ (lower_char c) (to_lower s)

-- The loop of `ParseUint`, after the digits that have been read as n. Whether an error is one of
-- syntax or of range does not show in the program.
unfoldable pub scan_uint : String → ℕ → Option ℕ
scan_uint String.[] n = some n
scan_uint (String.◌∷◌ c s) n =
    let rest = scan_uint s (n * 10 + (code c - b'0')) in
    if ltb (code c) b'0' || ltb b'9' (code c)
    then none
    else if ltb 0xffff (n * 10 + (code c - b'0'))
    then none
    else rest

unfoldable pub parse_uint : String → Option ℕ
unfolding scan_uint
parse_uint String.[] = none
parse_uint (String.◌∷◌ c s) = scan_uint (String.◌∷◌ c s) 0
