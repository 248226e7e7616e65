-- ===== src/Modbus/Loaded.antt =====
-- Points of a file (config/points.go), as the collector reads them (pkg/modbus/collector.go).
use Prim.Native.Char.{Char}
use mbsscaner.Prelude.{
  ℕ, ◌≡◌, ◌≢◌, refl, subst, String, List, [], ◌∷◌, Option, none, some, arith, All, true,
}
use mbsscaner.Config.Types.{DataType, ByteOrder, Point, is_valid_data_type}
use mbsscaner.Config.Points.{validate_points}
use mbsscaner.Config.Points.Valid.{IsSound, validate_points_iff}
use mbsscaner.Config.Load.{
  parsed, given, required, number, default_length, parse_fields, parse_length, parse_register_type,
  parse_scale, name_required, address_required, data_type_required, invalid_address,
  parse_point_record, field_map,
}
use mbsscaner.Config.Load.Formed.{Ensures, bind-Ensures, parse_data_type-Ensures, no_claim}
use mbsscaner.Config.Text.{parse_uint}
use mbsscaner.Modbus.Result.{panics}
use mbsscaner.Modbus.Parse.{parse_registers_for_point}
use mbsscaner.Modbus.Parse.Total.{parse_panics_iff}
use mbsscaner.Modbus.Single.Agrees.{HasWidth}

default_length-HasWidth :
    (t : DataType) → is_valid_data_type t ≡ true → HasWidth t (default_length t)
unfolding default_length is_valid_data_type
default_length-HasWidth (DataType.other s) h = absurd (cc)
default_length-HasWidth DataType.int16 h = refl
default_length-HasWidth DataType.string h = tt
default_length-HasWidth _ h = refl

abbrev HasItsWidth : Point → Type 0
HasItsWidth p = HasWidth p.data_type p.length

module _ (lower_rune : Char → Char) (parse_float : String → Option ℕ) where
  missing_length-Ensures :
      (t : DataType) (o : Option String)
      → o ≡ none
      → is_valid_data_type t ≡ true
      → Ensures (HasWidth t) (parse_length lower_rune parse_float t o)
  unfolding parse_length
  missing_length-Ensures t none e h = default_length-HasWidth t h
  missing_length-Ensures t (some s) e h = cc

  unsized-Ensures :
      (m : List (String × String))
      → given "length" m ≡ none
      → Ensures HasItsWidth (parse_fields lower_rune parse_float m)
  unfolding parse_fields
  unsized-Ensures m e =
      bind-Ensures (λ v. Unit {0}) HasItsWidth (required name_required (given "name" m)) _
        (no_claim _)
        λ name _.
          bind-Ensures (λ v. Unit {0}) HasItsWidth (required address_required (given "address" m)) _
            (no_claim _)
            λ at _.
              bind-Ensures (λ n. Unit {0}) HasItsWidth (number invalid_address (parse_uint at)) _
                (no_claim _)
                λ a _.
                  bind-Ensures (λ v. Unit {0}) HasItsWidth
                    (required data_type_required (given "data_type" m)) _ (no_claim _)
                    λ ty _.
                      bind-Ensures (λ t. is_valid_data_type t ≡ true) HasItsWidth _ _
                        (parse_data_type-Ensures lower_rune parse_float ty)
                        λ t known.
                          bind-Ensures (λ u. Unit {0}) HasItsWidth
                            (parse_register_type lower_rune parse_float (given "register_type" m)) _
                            (no_claim _)
                            λ u _.
                              bind-Ensures (HasWidth t) HasItsWidth _ _
                                (missing_length-Ensures t (given "length" m) e known)
                                λ n width.
                                  bind-Ensures (λ k. Unit {0}) HasItsWidth
                                    (parse_scale lower_rune parse_float (given "scale" m)) _
                                    (no_claim _) λ k _. width

  -- A point whose row gives no length takes the registers of its data type, so that a batch read
  -- and a single read of it see the same registers; a text may have any length.
  pub unsized-HasWidth :
      (header row : List String) (p : Point)
      → given "length" (field_map lower_rune parse_float header row []) ≡ none
      → parse_point_record lower_rune parse_float header row ≡ parsed p
      → HasWidth p.data_type p.length
  unfolding parse_point_record
  unsized-HasWidth header row p e h =
      subst (Ensures HasItsWidth) h
        (unsized-Ensures (field_map lower_rune parse_float header row []) e)

-- No point of a list that `ValidatePoints` accepts makes the parser panic, in any byte order and
-- for any registers.
pub validated_never_panics :
    (points : List Point) (order : ByteOrder) (registers : List ℕ)
    → validate_points points ≡ none
    → All (λ p. parse_registers_for_point order p registers ≢ panics) points
validated_never_panics points order registers h = go points ((validate_points_iff points).0 h).sound
  where
    go :
        (ps : List Point)
        → All IsSound ps
        → All (λ p. parse_registers_for_point order p registers ≢ panics) ps
    go [] s = tt
    go (p ∷ ps) s = (
      λ e.
          let zero_length = ((parse_panics_iff order p registers).0 e).0 in
          absurd (omega (arith, s.0.has_length)),
      go ps s.1,
    )
