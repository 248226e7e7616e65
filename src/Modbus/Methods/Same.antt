-- ===== src/Modbus/Methods/Same.antt =====
-- The byte-order methods of `Collector` (pkg/modbus/collector.go) beside the functions of
-- byteorder.go.
use mbsscaner.Prelude.{ℕ, ◌≡◌, refl, ℤ, List, [], ◌∷◌, le→ltb, length, arith}
use mbsscaner.Config.Types.{ByteOrder, big, little, middle, swap, other}
use mbsscaner.Modbus.ByteOrder
use mbsscaner.Modbus.Methods

put_pair_same :
    (bytes : List ℕ) (r0 r1 : ℕ) (rs : List ℕ) (order : ByteOrder)
    → Methods.put_pair bytes (r0 ∷ r1 ∷ rs) order
      ≡ ByteOrder.put_bytes_with_order bytes (r0 ∷ r1 ∷ rs) order
unfolding Methods.put_pair ByteOrder.put_bytes_with_order
put_pair_same bytes r0 r1 rs big = refl
put_pair_same bytes r0 r1 rs little = refl
put_pair_same bytes r0 r1 rs swap = refl
put_pair_same bytes r0 r1 rs middle = refl
put_pair_same bytes r0 r1 rs (other s) = refl

put_bytes_same :
    (bytes registers : List ℕ) (order : ByteOrder)
    → Methods.put_bytes_with_order bytes registers order
      ≡ ByteOrder.put_bytes_with_order bytes registers order
unfolding Methods.put_bytes_with_order ByteOrder.put_bytes_with_order
put_bytes_same bytes [] order = refl
put_bytes_same bytes (r ∷ []) order = refl
put_bytes_same bytes (r0 ∷ r1 ∷ rs) order =
    rw (le→ltb (length (r0 ∷ r1 ∷ rs)) 2 (omega arith)) (put_pair_same bytes r0 r1 rs order)

put_four_same :
    (bytes : List ℕ) (r0 r1 r2 r3 : ℕ) (rs : List ℕ) (order : ByteOrder)
    → Methods.put_four bytes (r0 ∷ r1 ∷ r2 ∷ r3 ∷ rs) order
      ≡ ByteOrder.put_float64_bytes_with_order bytes (r0 ∷ r1 ∷ r2 ∷ r3 ∷ rs) order
unfolding Methods.put_four ByteOrder.put_float64_bytes_with_order
put_four_same bytes r0 r1 r2 r3 rs big = refl
put_four_same bytes r0 r1 r2 r3 rs little = refl
put_four_same bytes r0 r1 r2 r3 rs swap = refl
put_four_same bytes r0 r1 r2 r3 rs middle = refl
put_four_same bytes r0 r1 r2 r3 rs (other s) = refl

put_float64_bytes_same :
    (bytes registers : List ℕ) (order : ByteOrder)
    → Methods.put_float64_bytes_with_order bytes registers order
      ≡ ByteOrder.put_float64_bytes_with_order bytes registers order
unfolding Methods.put_float64_bytes_with_order ByteOrder.put_float64_bytes_with_order
put_float64_bytes_same bytes [] order = refl
put_float64_bytes_same bytes (a ∷ []) order = refl
put_float64_bytes_same bytes (a ∷ b ∷ []) order = refl
put_float64_bytes_same bytes (a ∷ b ∷ c ∷ []) order = refl
put_float64_bytes_same bytes (r0 ∷ r1 ∷ r2 ∷ r3 ∷ rs) order =
    rw (le→ltb (length (r0 ∷ r1 ∷ r2 ∷ r3 ∷ rs)) 4 (omega arith))
      (put_four_same bytes r0 r1 r2 r3 rs order)

get_int32_same :
    (bytes : List ℕ) (order : ByteOrder)
    → Methods.get_int32_with_order bytes order ≡ ByteOrder.get_int32_with_order bytes order
unfolding Methods.get_int32_with_order ByteOrder.get_int32_with_order
get_int32_same bytes little = refl
get_int32_same bytes _ = refl

get_uint32_same :
    (bytes : List ℕ) (order : ByteOrder)
    → Methods.get_uint32_with_order bytes order ≡ ByteOrder.get_uint32_with_order bytes order
unfolding Methods.get_uint32_with_order ByteOrder.get_uint32_with_order
get_uint32_same bytes little = refl
get_uint32_same bytes _ = refl

uint32_to_registers_same :
    (value : ℕ) (order : ByteOrder)
    → Methods.uint32_to_registers value order ≡ ByteOrder.uint32_to_registers value order
unfolding Methods.uint32_to_registers ByteOrder.uint32_to_registers
uint32_to_registers_same value little = refl
uint32_to_registers_same value _ = refl

int32_to_registers_same :
    (value : ℤ) (order : ByteOrder)
    → Methods.int32_to_registers value order ≡ ByteOrder.int32_to_registers value order
unfolding Methods.int32_to_registers ByteOrder.int32_to_registers
int32_to_registers_same value little = refl
int32_to_registers_same value _ = refl

float32_to_registers_same :
    (bits : ℕ) (order : ByteOrder)
    → Methods.float32_to_registers bits order ≡ ByteOrder.float32_to_registers bits order
unfolding Methods.float32_to_registers ByteOrder.float32_to_registers
float32_to_registers_same bits little = refl
float32_to_registers_same bits _ = refl

float64_to_registers_same :
    (bits : ℕ) (order : ByteOrder)
    → Methods.float64_to_registers bits order ≡ ByteOrder.float64_to_registers bits order
unfolding Methods.float64_to_registers ByteOrder.float64_to_registers
float64_to_registers_same bits little = refl
float64_to_registers_same bits _ = refl

-- The collector's eight byte-order methods return what the functions of the same names in
-- byteorder.go return, for every slice, register list, value and byte order, known or not.
pub methods_same :
    (order : ByteOrder)
    → ((bytes registers : List ℕ)
        → Methods.put_bytes_with_order bytes registers order
          ≡ ByteOrder.put_bytes_with_order bytes registers order)
      × ((bytes registers : List ℕ)
          → Methods.put_float64_bytes_with_order bytes registers order
            ≡ ByteOrder.put_float64_bytes_with_order bytes registers order)
      × ((bytes : List ℕ)
          → Methods.get_int32_with_order bytes order ≡ ByteOrder.get_int32_with_order bytes order)
      × ((bytes : List ℕ)
          → Methods.get_uint32_with_order bytes order ≡ ByteOrder.get_uint32_with_order bytes order)
      × ((value : ℤ)
          → Methods.int32_to_registers value order ≡ ByteOrder.int32_to_registers value order)
      × ((value : ℕ)
          → Methods.uint32_to_registers value order ≡ ByteOrder.uint32_to_registers value order)
      × ((bits : ℕ)
          → Methods.float32_to_registers bits order ≡ ByteOrder.float32_to_registers bits order)
      × ((bits : ℕ)
          → Methods.float64_to_registers bits order ≡ ByteOrder.float64_to_registers bits order)
methods_same order = (
  λ bytes registers. put_bytes_same bytes registers order,
  λ bytes registers. put_float64_bytes_same bytes registers order,
  λ bytes. get_int32_same bytes order,
  λ bytes. get_uint32_same bytes order,
  λ value. int32_to_registers_same value order,
  λ value. uint32_to_registers_same value order,
  λ bits. float32_to_registers_same bits order,
  λ bits. float64_to_registers_same bits order,
)
