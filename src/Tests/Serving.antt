-- ===== src/Tests/Serving.antt =====
-- The manager, the cache, the handlers and the messages at concrete inputs.
use mbsscaner.Prelude.{
  ◌+◌, ◌∷◌, ℕ, String, str_eq, ◌≡◌, refl, arith, [], some, lookup, pos, negsuc, true, ◌↔◌,
  if◌then◌else◌, ℤ,
}
use mbsscaner.Config.Types.{DataType, swap}
use mbsscaner.Modbus.Result.{ok, reply}
use mbsscaner.Modbus.Value.{Value}
use mbsscaner.Modbus.Collector.{Collector}
use mbsscaner.Modbus.Collect.{PointValue, good}
use mbsscaner.Modbus.Manager.{
  Manager, Target, new_manager, register_collector, register_point, find, write_named,
  get_point_value,
}
use mbsscaner.Modbus.Manager.WriteRead.{write_named-get_point_value}
use mbsscaner.Modbus.Single.Encoded.{converted}
use mbsscaner.Modbus.Cache.{cache_get, cache_write, set_point_from_collection, cache_get-put}
use mbsscaner.Http.{handle_write_point, handle_read_point, success_with, point_written, nothing}
use mbsscaner.Http.Served.{Accepted, handle_write_point-Accepted, manager_writer, written_is_served}
use mbsscaner.Kafka.{Broker}
use mbsscaner.Service.Polled.{collect_device_data}
use mbsscaner.Service.System.{System, after_round, Reach, here, next, round, write}
use mbsscaner.Service.System.Names.{SameTarget}
use mbsscaner.Service.System.Kept.{find_lasting}
use mbsscaner.Tests.Reading.{floats, plc}
use mbsscaner.Tests.Writing.{remembering, remembering_storage, setpoint}

-- A connected collector in the order `swap`.
abbrev worker : Collector (ℕ → ℕ)
worker = record {
  conn = λ i. 0;
  device = record plc { byte_order = swap };
  connected = true;
  retry_count = 0;
  max_retries = 3;
}

abbrev staffed : Manager (ℕ → ℕ)
staffed = register_collector "plc" worker new_manager

abbrev ready : Manager (ℕ → ℕ)
ready = register_point setpoint "plc" staffed

abbrev goal : Target (ℕ → ℕ)
goal = record { device = "plc"; collector = worker; point = setpoint }

staffed_has_worker : lookup "plc" staffed.collectors ≡ some worker
unfolding register_collector new_manager
staffed_has_worker = refl

ready_finds : find "setpoint" ready ≡ ok goal
unfolding find register_point register_collector new_manager
ready_finds = refl

write_named-get_point_value_example :
    (m1 m2 : Manager (ℕ → ℕ)) × (write_named floats remembering "setpoint"
        (Value.int (negsuc 4))
        ready
      ≡ (ok tt, m1))
    × (get_point_value floats remembering "setpoint" m1
        ≡ (ok (converted floats DataType.int32 (Value.int (negsuc 4))), m2))
write_named-get_point_value_example =
    write_named-get_point_value floats remembering remembering_storage "setpoint"
      (Value.int (negsuc 4)) ready goal (λ i. 0) ready_finds refl refl refl refl (omega arith) tt

written_is_served_example :
    (m1 m2 : Manager (ℕ → ℕ)) × (handle_write_point
        (manager_writer floats remembering)
        (reply ("setpoint", Value.int (negsuc 4)))
        (some ready)
      ≡ (success_with point_written "setpoint" (Value.int (negsuc 4)), some m1))
    × (handle_read_point (manager_writer floats remembering) "setpoint" (some m1) ≡ (
      success_with nothing "setpoint" (converted floats DataType.int32 (Value.int (negsuc 4))),
      some m2,
    ))
written_is_served_example =
    written_is_served floats remembering remembering_storage "setpoint" (Value.int (negsuc 4)) ready
      goal (λ i. 0) refl ready_finds refl refl refl refl (omega arith) tt

handle_write_point-Accepted_example :
    ((handle_write_point
        (manager_writer floats remembering)
        (reply ("setpoint", Value.int (pos 7)))
        (some ready)).0.status
      ≡ 200)
    ↔ Accepted
        (manager_writer floats remembering)
        (reply ("setpoint", Value.int (pos 7)))
        (some ready)
handle_write_point-Accepted_example =
    handle_write_point-Accepted (manager_writer floats remembering)
      (reply ("setpoint", Value.int (pos 7))) (some ready)

abbrev value : String → ℤ → PointValue
value name z = record {
  name = name;
  value = Value.int16 z;
  data_type = DataType.int16;
  unit = "";
  description = "";
  quality = good;
  device = "plc";
}

cache_get-put_example :
    ((cache_get "b" (cache_write "a" (Value.int16 (pos 1)) []).1).0
      ≡ (if str_eq "a" "b" then ok (Value.int16 (pos 1)) else (cache_get "b" []).0))
    × ((cache_get "b" (set_point_from_collection "a" (value "a" (pos 2)) [])).0
        ≡ (if str_eq "a" "b" then ok (Value.int16 (pos 2)) else (cache_get "b" []).0))
cache_get-put_example = cache_get-put "a" "b" (Value.int16 (pos 1)) (value "a" (pos 2)) []

ready_has_worker : lookup "plc" ready.collectors ≡ some worker
unfolding register_point register_collector new_manager
ready_has_worker = refl

-- A broker that counts the messages.
abbrev counting : Broker
counting = record {
  State = ℕ;
  marshal = λ message. reply [];
  send_message = λ topic key bytes n. (reply tt, n + 1);
}

abbrev begun : System (ℕ → ℕ) ℕ
begun = record { manager = ready; producer = some 0 }

-- After a round of the goroutine, and after the write behind it.
abbrev after_tick : System (ℕ → ℕ) ℕ
after_tick = after_round "plc" begun (
    collect_device_data floats remembering counting "points" "plc" (setpoint ∷ [])
      (record { collector = worker; producer = some 0 }))

abbrev after_write : System (ℕ → ℕ) ℕ
after_write = record after_tick {
  manager = (write_named floats remembering "setpoint" (Value.int (pos 7)) after_tick.manager).1;
}

written_between : Reach floats remembering counting "points" begun after_write
written_between =
    next (next here (round "plc" (setpoint ∷ []) worker begun ready_has_worker))
      (write "setpoint" (Value.int (pos 7)) after_tick)

find_lasting_example :
    SameTarget (find "setpoint" begun.manager) (find "setpoint" after_write.manager)
find_lasting_example =
    find_lasting floats remembering counting "points" begun after_write "setpoint" written_between
