-- ===== src/Config/Load.antt =====
-- `LoadPoints` and `parsePointRecord` (config/points.go), over the records that the CSV reader
-- answers. The reader and `ParseFloat` are parameters; an error carries no text but what tells it
-- from the others.
pub mod Formed
pub mod Printed
use mbsscaner.Prelude.{
  ℕ, ◌+◌, String, str_eq, Bool, true, false, ◌||◌, List, [], ◌∷◌, Option, none, some, if◌then◌else◌,
  lookup, put, length,
}
use mbsscaner.Config.Types.{
  DataType, RegisterType, Point, is_valid_data_type, is_valid_register_type,
}
use mbsscaner.Config.Text.{trim, to_lower, parse_uint}
use Prim.Native.Char.{Char}

pub data RecordError : Type 0 where
  name_required address_required invalid_address data_type_required invalid_data_type : RecordError
  invalid_register_type invalid_length invalid_scale : RecordError

-- A number is that of the record in the file, from 1.
pub data LoadError : Type 0 where
  cannot_read too_few_records no_valid_points : LoadError
  missing_column : String → LoadError
  bad_record : ℕ → RecordError → LoadError

pub data Parsed {ℓ} (E : Type 0) (A : Type ℓ) : Type ℓ where
  parsed : A → Parsed E A
  refused : E → Parsed E A

infixl 5 ◌>>=◌
abbrev pub ◌>>=◌ {ℓ κ} :
    {E : Type 0} {A : Type ℓ} {B : Type κ} → Parsed E A → (A → Parsed E B) → Parsed E B
parsed a >>= f = f a
refused e >>= f = refused e

-- `DataType(s)` and `RegisterType(s)`.
unfoldable pub data_type_of : String → DataType
data_type_of s =
    if str_eq s "int16"
    then DataType.int16
    else if str_eq s "uint16"
    then DataType.uint16
    else if str_eq s "int32"
    then DataType.int32
    else if str_eq s "uint32"
    then DataType.uint32
    else if str_eq s "float32"
    then DataType.float32
    else if str_eq s "float64"
    then DataType.float64
    else if str_eq s "bool"
    then DataType.bool
    else if str_eq s "string"
    then DataType.string
    else DataType.other s

unfoldable pub register_type_of : String → RegisterType
register_type_of s =
    if str_eq s "coil"
    then RegisterType.coil
    else if str_eq s "discrete_input"
    then RegisterType.discrete_input
    else if str_eq s "input_register"
    then RegisterType.input_register
    else if str_eq s "holding_register"
    then RegisterType.holding_register
    else RegisterType.other s

-- `value, ok := fieldMap[k]` and the test `!ok || value == ""`.
unfoldable pub given : String → List (String × String) → Option String
given k fields = elim (lookup k fields) [
  | none ↦ none
  | some v ↦ if str_eq v "" then none else some v
]

-- The value of a field that may be missing: the text is empty then.
abbrev pub text_or_empty : Option String → String
text_or_empty none = ""
text_or_empty (some v) = v

abbrev pub required : RecordError → Option String → Parsed RecordError String
required e none = refused e
required e (some v) = parsed v

abbrev pub number : RecordError → Option ℕ → Parsed RecordError ℕ
number e none = refused e
number e (some n) = parsed n

-- The length where none is given; 0 for a type that is not valid, which does not get here.
unfoldable pub default_length : DataType → ℕ
default_length DataType.int16 = 1
default_length DataType.uint16 = 1
default_length DataType.bool = 1
default_length DataType.int32 = 2
default_length DataType.uint32 = 2
default_length DataType.float32 = 2
default_length DataType.float64 = 4
default_length DataType.string = 10
default_length (DataType.other s) = 0

-- The bits of 1.0.
abbrev pub unit_scale : ℕ
unit_scale = 0x3ff0_0000_0000_0000

abbrev checked_data_type : DataType → Parsed RecordError DataType
checked_data_type t = if is_valid_data_type t then parsed t else refused invalid_data_type

abbrev checked_register_type : RegisterType → Parsed RecordError RegisterType
checked_register_type t =
    if is_valid_register_type t then parsed t else refused invalid_register_type

module _ (lower_rune : Char → Char) (parse_float : String → Option ℕ) where
  abbrev lower : String → String
  lower = to_lower lower_rune

  -- The loop that fills the map of the fields.
  unfoldable pub field_map :
      List String → List String → List (String × String) → List (String × String)
  unfolding trim to_lower
  field_map [] row m = m
  field_map (h ∷ hs) [] m = m
  field_map (h ∷ hs) (r ∷ rs) m = field_map hs rs (put (lower (trim h)) (trim r) m)

  unfoldable pub parse_register_type : Option String → Parsed RecordError RegisterType
  unfolding register_type_of trim to_lower is_valid_register_type
  parse_register_type none = parsed RegisterType.holding_register
  parse_register_type (some s) = checked_register_type (register_type_of (lower (trim s)))

  unfoldable pub parse_data_type : String → Parsed RecordError DataType
  unfolding data_type_of to_lower is_valid_data_type
  parse_data_type s = checked_data_type (data_type_of (lower s))

  unfoldable pub parse_length : DataType → Option String → Parsed RecordError ℕ
  unfolding default_length parse_uint
  parse_length t none = parsed (default_length t)
  parse_length t (some s) = number invalid_length (parse_uint s)

  unfoldable pub parse_scale : Option String → Parsed RecordError ℕ
  parse_scale none = parsed unit_scale
  parse_scale (some s) = number invalid_scale (parse_float s)

  -- The body of `parsePointRecord` behind the map.
  unfoldable pub parse_fields : List (String × String) → Parsed RecordError Point
  unfolding given parse_data_type parse_register_type parse_length parse_scale parse_uint
  parse_fields m = do
    name ← required name_required (given "name" m)
    address_text ← required address_required (given "address" m)
    address ← number invalid_address (parse_uint address_text)
    data_type_text ← required data_type_required (given "data_type" m)
    data_type ← parse_data_type data_type_text
    register_type ← parse_register_type (given "register_type" m)
    length ← parse_length data_type (given "length" m)
    scale ← parse_scale (given "scale" m)
    parsed (record {
      name = name;
      address = address;
      data_type = data_type;
      register_type = register_type;
      length = length;
      scale = scale;
      unit = text_or_empty (lookup "unit" m);
      description = text_or_empty (lookup "description" m);
    })

  unfoldable pub parse_point_record : List String → List String → Parsed RecordError Point
  unfolding parse_fields field_map
  parse_point_record header row = parse_fields (field_map header row [])

  -- The search for a column of the header.
  unfoldable pub has_column : List String → String → Bool
  unfolding trim to_lower
  has_column [] k = false
  has_column (h ∷ hs) k = str_eq (lower (trim h)) k || has_column hs k

  abbrev pub required_headers : List String
  required_headers = "name" ∷ "address" ∷ "data_type" ∷ "register_type" ∷ []

  unfoldable pub missing : List String → List String → Option String
  unfolding has_column
  missing header [] = none
  missing header (k ∷ ks) = if has_column header k then missing header ks else some k

  -- A row with no fields or one blank field.
  unfoldable pub is_blank : List String → Bool
  unfolding trim
  is_blank [] = true
  is_blank (r ∷ []) = str_eq (trim r) ""
  is_blank (r ∷ r' ∷ rs) = false

  abbrev then_points :
      ℕ → Parsed RecordError Point → Parsed LoadError (List Point) → Parsed LoadError (List Point)
  then_points i (refused e) rest = refused (bad_record i e)
  then_points i (parsed p) (refused e) = refused e
  then_points i (parsed p) (parsed ps) = parsed (p ∷ ps)

  -- The loop over the rows, at record i of the file; the first error ends it.
  unfoldable pub parse_rows : ℕ → List String → List (List String) → Parsed LoadError (List Point)
  unfolding is_blank parse_point_record
  parse_rows i header [] = parsed []
  parse_rows i header (r ∷ rs) =
      let rest = parse_rows (i + 1) header rs in
      if is_blank r then rest else then_points i (parse_point_record header r) rest

  abbrev some_points : List Point → Parsed LoadError (List Point)
  some_points [] = refused no_valid_points
  some_points (p ∷ ps) = parsed (p ∷ ps)

  abbrev with_columns :
      Option String → Parsed LoadError (List Point) → Parsed LoadError (List Point)
  with_columns (some k) rest = refused (missing_column k)
  with_columns none rest = rest

  -- `LoadPoints` behind the reader: `none` is an error of the file or of the reader.
  unfoldable pub load_points : Option (List (List String)) → Parsed LoadError (List Point)
  unfolding missing parse_rows
  load_points none = refused cannot_read
  load_points (some []) = refused too_few_records
  load_points (some (header ∷ [])) = refused too_few_records
  load_points (some (header ∷ row ∷ rows)) =
      with_columns (missing header required_headers)
        (parse_rows 2 header (row ∷ rows) >>= some_points)
