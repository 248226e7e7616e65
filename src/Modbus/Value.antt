-- ===== src/Modbus/Value.antt =====
-- The dynamic values (`interface{}`) that points carry, and the float operations of the language.
use mbsscaner.Prelude.{ℕ, ℤ, List, Bool}

-- Integers are numbers in the range of their type, floats are bit patterns, a string is its bytes.
-- `other` is a value of any type that the sources do not name, such as a decoded JSON object.
pub data Value : Type 0 where
  nil other : Value
  bool : Bool → Value
  int int8 int16 int32 int64 : ℤ → Value
  uint uint8 uint16 uint32 uint64 : ℕ → Value
  float32 float64 : ℕ → Value
  string : List ℕ → Value

-- Arithmetic and conversions on bit patterns. What Go does with a float that is out of range of
-- an integer type depends on the machine, so they are parameters.
pub record Floats : Type 0 where
  pub times : ℕ → ℕ → ℕ
  pub widen : ℕ → ℕ
  pub narrow : ℕ → ℕ
  pub float64_of : ℤ → ℕ
  pub float32_of : ℤ → ℕ
  pub to_int16 : ℕ → ℤ
  pub to_uint16 : ℕ → ℕ
  pub to_int32 : ℕ → ℤ
  pub to_uint32 : ℕ → ℕ
  pub to_int64 : ℕ → ℤ
  pub to_uint64 : ℕ → ℕ
  pub single_to_int64 : ℕ → ℤ
  pub single_to_uint64 : ℕ → ℕ
