-- ===== src/Config/Load/Printed.antt =====
-- The text of a points file for given points, and reading it back by `LoadPoints`
-- (config/points.go).
use Prim.Native.Char.{Char}
use text.Mathlib.TextLemmas.{cons-ne-nil}
use mbsscaner.Prelude.{
  ℕ, ◌+◌, ◌<◌, ◌≡◌, refl, ap, ◌∙◌, String, str_eq, eq_iff, true, false, List, [], ◌∷◌, map, Option,
  none, some, Bool-cases, inl, inr, All,
}
use mbsscaner.Config.Types.{
  DataType, RegisterType, Point, is_valid_data_type, is_valid_register_type,
}
use mbsscaner.Config.Text.{trim, parse_uint}
use mbsscaner.Config.Text.Decimal.{
  decimal, decimal-IsSolid, decimal-Present, parse_uint-decimal, trim-IsSolid, Present,
}
use mbsscaner.Config.Load.{
  parsed, parse_data_type, parse_register_type, parse_length, parse_scale, parse_fields, field_map,
  parse_point_record, parse_rows, load_points, missing, required_headers,
}

abbrev pub text_of_data_type : DataType → String
text_of_data_type DataType.int16 = "int16"
text_of_data_type DataType.uint16 = "uint16"
text_of_data_type DataType.int32 = "int32"
text_of_data_type DataType.uint32 = "uint32"
text_of_data_type DataType.float32 = "float32"
text_of_data_type DataType.float64 = "float64"
text_of_data_type DataType.bool = "bool"
text_of_data_type DataType.string = "string"
text_of_data_type (DataType.other s) = s

abbrev pub text_of_register_type : RegisterType → String
text_of_register_type RegisterType.coil = "coil"
text_of_register_type RegisterType.discrete_input = "discrete_input"
text_of_register_type RegisterType.input_register = "input_register"
text_of_register_type RegisterType.holding_register = "holding_register"
text_of_register_type (RegisterType.other s) = s

-- The columns of the example files.
abbrev pub columns : List String
columns =
    "name" ∷ "address" ∷ "data_type" ∷ "register_type" ∷ "length" ∷ "scale" ∷ "unit" ∷ "description"
    ∷ []

-- The map that the columns give for the texts of a row.
abbrev fields :
    String → String → String → String → String → String → String → String → List (String × String)
fields n a t r l k u d =
    ("name", n)
    ∷ ("address", a)
    ∷ ("data_type", t)
    ∷ ("register_type", r)
    ∷ ("length", l)
    ∷ ("scale", k)
    ∷ ("unit", u)
    ∷ ("description", d)
    ∷ []

Present-str_eq : (s : String) → Present s → str_eq s "" ≡ false
Present-str_eq String.[] h = elim h [ ]
Present-str_eq (String.◌∷◌ c s) h = elim (Bool-cases (str_eq (String.◌∷◌ c s) "")) [
  | inl e ↦ absurd (cons-ne-nil c s ((eq_iff (String.◌∷◌ c s) "").0 e))
  | inr e ↦ e
]

module _ (lower_rune : Char → Char) (parse_float : String → Option ℕ) where
  field_map-columns :
      (n a t r l k u d : String)
      → field_map lower_rune parse_float columns (n ∷ a ∷ t ∷ r ∷ l ∷ k ∷ u ∷ d ∷ []) []
        ≡ fields (trim n) (trim a) (trim t) (trim r) (trim l) (trim k) (trim u) (trim d)
  unfolding field_map
  field_map-columns n a t r l k u d = refl

  known_data_type :
      (t : DataType)
      → is_valid_data_type t ≡ true
      → parse_data_type lower_rune parse_float (text_of_data_type t) ≡ parsed t
  unfolding parse_data_type
  known_data_type (DataType.other s) h = cc
  known_data_type DataType.int16 h = refl
  known_data_type _ h = refl

  known_register_type :
      (t : RegisterType)
      → is_valid_register_type t ≡ true
      → parse_register_type lower_rune parse_float (some (text_of_register_type t)) ≡ parsed t
  unfolding parse_register_type
  known_register_type (RegisterType.other s) h = cc
  known_register_type RegisterType.coil h = refl
  known_register_type _ h = refl

  known_data_type_text :
      (t : DataType)
      → is_valid_data_type t ≡ true
      → (trim (text_of_data_type t) ≡ text_of_data_type t) × Present (text_of_data_type t)
  unfolding trim is_valid_data_type
  known_data_type_text (DataType.other s) h = cc
  known_data_type_text DataType.int16 h = (refl, tt)
  known_data_type_text _ h = (refl, tt)

  known_register_type_text :
      (t : RegisterType)
      → is_valid_register_type t ≡ true
      → (trim (text_of_register_type t) ≡ text_of_register_type t)
        × Present (text_of_register_type t)
  unfolding trim is_valid_register_type
  known_register_type_text (RegisterType.other s) h = cc
  known_register_type_text RegisterType.coil h = (refl, tt)
  known_register_type_text _ h = (refl, tt)

  -- The reading of a map whose texts can be parsed.
  parse_fields-fields :
      (n a t r l k u d : String) (address length scale : ℕ) (data_type : DataType)
      (register_type : RegisterType)
      → Present n
      → Present a
      → Present t
      → Present r
      → Present l
      → Present k
      → parse_uint a ≡ some address
      → parse_data_type lower_rune parse_float t ≡ parsed data_type
      → parse_register_type lower_rune parse_float (some r) ≡ parsed register_type
      → parse_uint l ≡ some length
      → parse_float k ≡ some scale
      → parse_fields lower_rune parse_float (fields n a t r l k u d)
        ≡ parsed (record {
          name = n;
          address = address;
          data_type = data_type;
          register_type = register_type;
          length = length;
          scale = scale;
          unit = u;
          description = d;
        })
  unfolding parse_fields parse_length parse_scale
  parse_fields-fields n a t r l k u d address length scale data_type register_type pn pa pt pr pl pk
        ea et er el ek =
      simp (
        Present-str_eq n pn,
        Present-str_eq a pa,
        Present-str_eq t pt,
        Present-str_eq r pr,
        Present-str_eq l pl,
        Present-str_eq k pk,
        ea,
        et,
        er,
        el,
        ek,
      )

module _ (lower_rune : Char → Char) (parse_float : String → Option ℕ)
    (print_float : ℕ → String) where
  -- The row of a point, in the order of the columns.
  abbrev pub row : Point → List String
  row p =
      p.name
      ∷ decimal p.address
      ∷ text_of_data_type p.data_type
      ∷ text_of_register_type p.register_type
      ∷ decimal p.length
      ∷ print_float p.scale
      ∷ p.unit
      ∷ p.description
      ∷ []

  -- The texts of the point have no blanks at their ends, the name and the scale's text are not
  -- empty, numbers fit 16 bits, the types are known, and the scale's text is read back.
  pub record IsPrintable (p : Point) : Type 0 where
    pub has_name : Present p.name
    pub name_trimmed : trim p.name ≡ p.name
    pub unit_trimmed : trim p.unit ≡ p.unit
    pub description_trimmed : trim p.description ≡ p.description
    pub address_bound : p.address < 0x1_0000
    pub length_bound : p.length < 0x1_0000
    pub known_data_type : is_valid_data_type p.data_type ≡ true
    pub known_register_type : is_valid_register_type p.register_type ≡ true
    pub scale_text : Present (print_float p.scale)
    pub scale_trimmed : trim (print_float p.scale) ≡ print_float p.scale
    pub scale_read : parse_float (print_float p.scale) ≡ some p.scale

  field_map-row :
      (p : Point)
      → IsPrintable p
      → field_map lower_rune parse_float columns (row p) []
        ≡ fields p.name
            (decimal p.address)
            (text_of_data_type p.data_type)
            (text_of_register_type p.register_type)
            (decimal p.length)
            (print_float p.scale)
            p.unit
            p.description
  field_map-row p h =
      let (t, pt) = known_data_type_text lower_rune parse_float p.data_type h.known_data_type in
      let (r, pr) =
        known_register_type_text lower_rune parse_float p.register_type h.known_register_type in
      let a = trim-IsSolid (decimal p.address) (decimal-IsSolid p.address) in
      let l = trim-IsSolid (decimal p.length) (decimal-IsSolid p.length) in
      field_map-columns lower_rune parse_float p.name (decimal p.address)
        (text_of_data_type p.data_type) (text_of_register_type p.register_type) (decimal p.length)
        (print_float p.scale) p.unit p.description
      ∙ simp (h.name_trimmed, a, t, r, l, h.scale_trimmed, h.unit_trimmed, h.description_trimmed)

  parse_point_record-row :
      (p : Point)
      → IsPrintable p
      → parse_point_record lower_rune parse_float columns (row p) ≡ parsed p
  unfolding parse_point_record
  parse_point_record-row p h =
      let (t, pt) = known_data_type_text lower_rune parse_float p.data_type h.known_data_type in
      let (r, pr) =
        known_register_type_text lower_rune parse_float p.register_type h.known_register_type in
      ap (parse_fields lower_rune parse_float) (field_map-row p h)
      ∙ parse_fields-fields lower_rune parse_float p.name (decimal p.address)
          (text_of_data_type p.data_type) (text_of_register_type p.register_type) (decimal p.length)
          (print_float p.scale) p.unit p.description p.address p.length p.scale p.data_type
          p.register_type h.has_name (decimal-Present p.address) pt pr (decimal-Present p.length)
          h.scale_text (parse_uint-decimal p.address h.address_bound)
          (known_data_type lower_rune parse_float p.data_type h.known_data_type)
          (known_register_type lower_rune parse_float p.register_type h.known_register_type)
          (parse_uint-decimal p.length h.length_bound) h.scale_read

  parse_rows-row :
      (i : ℕ) (points : List Point)
      → All IsPrintable points
      → parse_rows lower_rune parse_float i columns (map row points) ≡ parsed points
  unfolding parse_rows
  parse_rows-row i [] h = refl
  parse_rows-row i (p ∷ ps) h =
      rw (parse_point_record-row p h.0) (rw (parse_rows-row (i + 1) ps h.1) refl)

  columns_are_there :
      missing lower_rune parse_float columns (required_headers lower_rune parse_float) ≡ none
  unfolding missing
  columns_are_there = refl

  -- `LoadPoints` reads every non-empty list of printable points back from the file with the columns
  -- of the example files and one row for each point.
  pub load_points-row :
      (p : Point) (points : List Point)
      → All IsPrintable (p ∷ points)
      → load_points lower_rune parse_float (some (columns ∷ map row (p ∷ points)))
        ≡ parsed (p ∷ points)
  unfolding load_points
  load_points-row p points h = rw columns_are_there (rw (parse_rows-row 2 (p ∷ points) h) refl)
