-- ===== src/Tests/Publishing.antt =====
-- From the registers to the message (pkg/modbus/collector.go, pkg/kafka/producer.go) at a concrete
-- input.
use mathlib.Core.List.{Nodup, mem-cons_self, not-mem-nil, Nodup-cons, Nodup-nil, mem_of_ne_of_mem}
use mbsscaner.Prelude.{ℕ, ◌≡◌, ◌≢◌, List, [], ◌∷◌, map, lookup, some, arith, eq_iff}
use mbsscaner.Config.Types.{Point, RegisterType}
use mbsscaner.Modbus.Result.{ok}
use mbsscaner.Modbus.Collect.{PointValue, collect_points}
use mbsscaner.Modbus.Collect.Exact.{reading}
use mbsscaner.Kafka.{simple_message}
use mbsscaner.Kafka.Delivered.{collect_points-simple_message}
use mbsscaner.Tests.Grouping.{point}
use mbsscaner.Tests.Devices.{answering, answering_device}
use mbsscaner.Tests.Reading.{floats, plc, idle, online, connects}

abbrev flow : Point
flow = point "flow" RegisterType.holding_register 100 1

abbrev level : Point
level = point "level" RegisterType.holding_register 101 2

flow_is_not_level : flow.name ≢ level.name
flow_is_not_level e = cc ((eq_iff flow.name level.name).1 e)

two_names : Nodup (map (λ (q : Point). q.name) (flow ∷ level ∷ []))
two_names =
    Nodup-cons.1 (
      λ m. not-mem-nil (mem_of_ne_of_mem flow_is_not_level m),
      Nodup-cons.1 (not-mem-nil, Nodup-nil),
    )

collect_points-simple_message_example :
    (values : List PointValue) × (w : ℕ) × (collect_points floats answering (flow ∷ level ∷ []) idle
      ≡ (ok values, record online { conn = w }))
    × (lookup "flow" (simple_message "plc" values).values
        ≡ some (reading floats answering answering_device plc flow).value)
collect_points-simple_message_example =
    collect_points-simple_message floats answering answering_device idle online (flow ∷ level ∷ [])
      flow "plc" connects tt (omega arith) two_names mem-cons_self
