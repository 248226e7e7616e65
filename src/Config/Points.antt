-- ===== src/Config/Points.antt =====
-- `ValidatePoints` (config/points.go). The maps of names and of keys are lists of what was entered.
-- The key text "address:registerType" is the pair of the two: a decimal number holds no colon, so
-- the text determines both.
pub mod Valid
use mbsscaner.Prelude.{
  ℕ, suc, ◌+◌, ◌*◌, ◌^◌, String, str_eq, List, [], ◌∷◌, Bool, true, false, ◌&&◌, ◌||◌, Option, none,
  some, ◌==◌, if◌then◌else◌,
}
use mbsscaner.Config.Types.{RegisterType, Point, register_type_eq}

-- The number is the index of the point that is refused.
pub data PointsError : Type 0 where
  no_points : PointsError
  empty_name duplicate_name duplicate_address no_length zero_scale : ℕ → PointsError

abbrev pub Key : Type 0
Key = ℕ × RegisterType

unfoldable pub key_of : Point → Key
key_of p = (p.address, p.register_type)

unfoldable pub key_eq : Key → Key → Bool
unfolding register_type_eq
key_eq (a, t) (b, u) = a == b && register_type_eq t u

-- `nameMap[name]` and `addressMap[key]`.
unfoldable pub has_name : List String → String → Bool
has_name [] n = false
has_name (m ∷ ms) n = str_eq m n || has_name ms n

unfoldable pub has_key : List Key → Key → Bool
unfolding key_eq
has_key [] k = false
has_key (j ∷ js) k = key_eq j k || has_key js k

-- `scale == 0` on the bits of a float64: +0 and -0.
unfoldable pub is_zero_scale : ℕ → Bool
is_zero_scale bits = bits == 0 || bits == 0x8000_0000_0000_0000

-- The loop at index i.
unfoldable pub validate_from : ℕ → List String → List Key → List Point → Option PointsError
unfolding has_name has_key is_zero_scale key_of
validate_from i names keys [] = none
validate_from i names keys (p ∷ ps) =
    let rest = validate_from (i + 1) (p.name ∷ names) (key_of p ∷ keys) ps in
    if str_eq p.name ""
    then some (empty_name i)
    else if has_name names p.name
    then some (duplicate_name i)
    else if has_key keys (key_of p)
    then some (duplicate_address i)
    else if p.length == 0
    then some (no_length i)
    else if is_zero_scale p.scale
    then some (zero_scale i)
    else rest

unfoldable pub validate_points : List Point → Option PointsError
unfolding validate_from
validate_points [] = some no_points
validate_points (p ∷ ps) = validate_from 0 [] [] (p ∷ ps)
