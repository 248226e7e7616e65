-- ===== src/Tests/Writing.antt =====
-- Writing, reading back and single reads (pkg/modbus/collector.go) on a device with a memory.
use mbsscaner.Prelude.{
  ℕ, ◌/◌, ◌%◌, ◌*◌, zero, suc, ◌+◌, ◌<◌, ◌≡◌, refl, ap, ap₂, ◌∙◌, arith, List, [], ◌∷◌, ◌==◌,
  if◌then◌else◌, length, inl, ◌↔◌, negsuc, false, true,
}
use mbsscaner.Config.Types.{DataType, RegisterType, little, swap, other, Point}
use mbsscaner.Modbus.Result.{reply, ok}
use mbsscaner.Modbus.Client.{Client, holding}
use mbsscaner.Modbus.Value.{Value}
use mbsscaner.Modbus.ByteOrder.{uint16_to_registers}
use mbsscaner.Modbus.Parse.{parse_as, parse_registers_for_point}
use mbsscaner.Modbus.Batch.{get_modbus_register_type}
use mbsscaner.Modbus.Batch.Serves.{slice}
use mbsscaner.Modbus.Convert.{int32_of}
use mbsscaner.Modbus.Write.{write_holding_register}
use mbsscaner.Modbus.Single.{collect_single_point}
use mbsscaner.Modbus.Single.Agrees.{Same, collect_single_point-Agrees}
use mbsscaner.Modbus.Single.Encoded.{converted, uint16_written_swapped}
use mbsscaner.Modbus.Single.Unset.{unset_order_reads_zero}
use mbsscaner.Modbus.Single.Written.{Storage, write_holding_register_round_trip}
use mbsscaner.Tests.Devices.{answering}
use mbsscaner.Tests.Reading.{floats}

abbrev pub store : (ℕ → ℕ) → ℕ → List ℕ → ℕ → ℕ
store mem a [] = mem
store mem a (r ∷ rs) = λ i. if i == a then r else store mem (a + 1) rs i

-- What is stored below the slice does not show.
slice-below :
    (f : ℕ → ℕ) (r a b n : ℕ) → a < b → slice (λ i. if i == a then r else f i) b n ≡ slice f b n
slice-below f r a b zero h = refl
slice-below f r a b (suc n) h =
    let e : (b == a) ≡ false = ground arith in
    ap₂ ◌∷◌ (ap (λ t. if t then r else f b) e) (slice-below f r a (b + 1) n (omega arith))

pub slice-store :
    (mem : ℕ → ℕ) (a : ℕ) (regs : List ℕ) → slice (store mem a regs) a (length regs) ≡ regs
slice-store mem a [] = refl
slice-store mem a (r ∷ rs) =
    let e : (a == a) ≡ true = ground arith in
    ap₂ ◌∷◌ (ap (λ t. if t then r else store mem (a + 1) rs a) e) (
      slice-below (store mem (a + 1) rs) r a (a + 1) (length rs) (omega arith)
      ∙ slice-store mem (a + 1) rs)

-- A device whose holding registers are the state of the connection.
abbrev pub remembering : Client
remembering = record {
  Conn = ℕ → ℕ;
  open_conn = λ m. (reply tt, m);
  close_conn = λ m. (reply tt, m);
  read_coils = λ a k m. (reply (slice (λ i. true) a k), m);
  read_discrete_inputs = λ a k m. (reply (slice (λ i. true) a k), m);
  read_registers = λ a k t m. (reply (slice m a k), m);
  read_register = λ a t m. (reply (m a), m);
  write_coil = λ a b m. (reply tt, m);
  write_registers = λ a rs m. (reply tt, store m a rs);
}

abbrev pub remembering_storage : Storage remembering
remembering_storage = record {
  Holds = λ mem w. w ≡ mem;
  stores = λ mem a regs w h lo hi fits.
      (store w a regs, store w a regs, refl, slice-store w a regs, refl);
  serves_one = λ mem a w h fits. (w, ap (λ (m : ℕ → ℕ). (reply (m a), w)) h, h);
  serves = λ mem a n w h lo hi fits. (w, ap (λ (m : ℕ → ℕ). (reply (slice m a n), w)) h, h);
}

abbrev pub setpoint : Point
setpoint = record {
  name = "setpoint";
  address = 40;
  data_type = DataType.int32;
  register_type = RegisterType.holding_register;
  length = 2;
  scale = 0x3ff0_0000_0000_0000;
  unit = "";
  description = "";
}

write_holding_register_round_trip_example :
    (w1 w2 : ℕ → ℕ) × (write_holding_register floats remembering swap setpoint
        (Value.int (negsuc 4))
        (λ i. 0)
      ≡ (ok tt, w1))
    × (collect_single_point remembering swap setpoint w1
        ≡ (ok (converted floats DataType.int32 (Value.int (negsuc 4))), w2))
write_holding_register_round_trip_example =
    write_holding_register_round_trip floats remembering remembering_storage swap setpoint
      (Value.int (negsuc 4)) (λ i. 0) (λ i. 0) refl refl refl (omega arith) tt

-- The value is -5 again.
minus_five : converted floats DataType.int32 (Value.int (negsuc 4)) ≡ Value.int32 (negsuc 4)
unfolding int32_of
minus_five = refl

holding_is_known : get_modbus_register_type RegisterType.holding_register ≡ ok holding
unfolding get_modbus_register_type
holding_is_known = refl

collect_single_point-Agrees_example :
    Same answering
      (λ n. Unit)
      (λ i. i + 1)
      holding
      (λ a n live h. (n + 1, refl, tt))
      (λ a k n live p q r. (n + 1, refl, tt))
      (collect_single_point answering little setpoint 0)
      (parse_registers_for_point little setpoint (slice (λ i. i + 1) 40 2))
collect_single_point-Agrees_example =
    collect_single_point-Agrees answering (λ n. Unit) (λ i. i + 1) holding
      (λ a n live h. (n + 1, refl, tt)) (λ a k n live p q r. (n + 1, refl, tt)) little setpoint 0 tt
      tt holding_is_known refl (omega arith)

-- Registers 40 and 41 hold 41 and 42.
unset_order_reads_zero_example :
    ((w' : ℕ) × (collect_single_point answering
          (other "")
          (record setpoint { data_type = DataType.uint32 })
          0
        ≡ (ok (Value.uint32 0), w')))
    × (parse_registers_for_point
          (other "")
          (record setpoint { data_type = DataType.uint32 })
          (slice (λ i. i + 1) 40 2)
        ≡ ok (Value.uint32 2_687_018))
unset_order_reads_zero_example =
    unset_order_reads_zero answering (λ n. Unit) (λ i. i + 1) holding
      (λ a k n live p q r. (n + 1, refl, tt)) (record setpoint { data_type = DataType.uint32 }) 0 tt
      refl refl holding_is_known (omega arith) (omega arith) (omega arith)

uint16_written_swapped_example :
    (parse_as DataType.uint16 little (uint16_to_registers 258 little) ≡ ok (Value.uint16 513))
    × ((258 / 256 + 258 % 256 * 256 ≡ 258) ↔ (258 / 256 ≡ 258 % 256))
uint16_written_swapped_example = uint16_written_swapped 258 little (omega arith) (inl refl)
