-- ===== src/Config/Types.antt =====
-- The enumerations and structs of config/points.go and config/config.go. A Go string type whose
-- constants are listed is a data type with one constructor for each constant; `other` holds any
-- other text, which the type also allows.
use mbsscaner.Prelude.{ℕ, String, ℤ, Bool, true, false, ◌≡◌, refl, ap, str_eq, eq_iff, arith}

pub data DataType : Type 0 where
  int16 uint16 int32 uint32 float32 float64 bool string : DataType
  other : String → DataType

pub data RegisterType : Type 0 where
  coil discrete_input input_register holding_register : RegisterType
  other : String → RegisterType

pub data ByteOrder : Type 0 where
  big little middle swap : ByteOrder
  other : String → ByteOrder

-- `scale` is the bit pattern of the float64.
pub record Point : Type 0 where
  pub name : String
  pub address : ℕ
  pub data_type : DataType
  pub register_type : RegisterType
  pub length : ℕ
  pub scale : ℕ
  pub unit : String
  pub description : String

pub record ModbusDevice : Type 0 where
  pub name : String
  pub host : String
  pub port : ℤ
  pub slave_id : ℕ
  pub timeout : ℤ
  pub interval : ℤ
  pub points_file : String
  pub byte_order : ByteOrder

unfoldable pub is_valid_data_type : DataType → Bool
is_valid_data_type (DataType.other s) = false
is_valid_data_type DataType.int16 = true
is_valid_data_type _ = true

unfoldable pub is_valid_register_type : RegisterType → Bool
is_valid_register_type (RegisterType.other s) = false
is_valid_register_type RegisterType.coil = true
is_valid_register_type _ = true

-- Equality of the Go strings behind the two types.
unfoldable pub register_type_eq : RegisterType → RegisterType → Bool
register_type_eq RegisterType.coil RegisterType.coil = true
register_type_eq RegisterType.discrete_input RegisterType.discrete_input = true
register_type_eq RegisterType.input_register RegisterType.input_register = true
register_type_eq RegisterType.holding_register RegisterType.holding_register = true
register_type_eq (RegisterType.other s) (RegisterType.other t) = str_eq s t
register_type_eq _ _ = false

pub register_type_eq_sound : (a b : RegisterType) → register_type_eq a b ≡ true → a ≡ b
unfolding register_type_eq
register_type_eq_sound RegisterType.coil b h = ground arith
register_type_eq_sound RegisterType.discrete_input b h = ground arith
register_type_eq_sound RegisterType.input_register b h = ground arith
register_type_eq_sound RegisterType.holding_register b h = ground arith
register_type_eq_sound (RegisterType.other s) (RegisterType.other t) h =
    ap RegisterType.other ((eq_iff s t).0 h)
register_type_eq_sound (RegisterType.other s) RegisterType.coil h = cc
register_type_eq_sound (RegisterType.other s) RegisterType.discrete_input h = cc
register_type_eq_sound (RegisterType.other s) RegisterType.input_register h = cc
register_type_eq_sound (RegisterType.other s) RegisterType.holding_register h = cc

pub register_type_eq_refl : (a : RegisterType) → register_type_eq a a ≡ true
unfolding register_type_eq
register_type_eq_refl (RegisterType.other s) = (eq_iff s s).1 refl
register_type_eq_refl RegisterType.coil = refl
register_type_eq_refl _ = refl
