-- ===== src/Tests/Polling.antt =====
-- A collector with several users, and the collecting goroutine of a device, at concrete inputs.
use mbsscaner.Prelude.{◌+◌, ℕ, ◌≡◌, ◌≤◌, refl, arith, pos, negsuc, List, [], ◌∷◌, some, none, true}
use mbsscaner.Modbus.Result.{panics, reply, refused, client, no_attempts}
use mbsscaner.Modbus.Batch.Serves.{length-slice}
use mbsscaner.Modbus.Batch.Sized.{Honest}
use mbsscaner.Modbus.Collector.{test_connection}
use mbsscaner.Modbus.Collector.Shared.{
  ensured, working, opening, testing, retrying, Shared, set_phase, goto, looks_lost, enter, opens,
  test_passes, acquire, Reach, here, next, unused,
}
use mbsscaner.Modbus.Collector.Shared.Consistent.{
  IsFresh, attempts_left, HeldBy, in_operation, in_state, FlagIn,
}
use mbsscaner.Modbus.Collector.Shared.Safe.{shared_safe}
use mbsscaner.Modbus.Collect.{collect_points}
use mbsscaner.Modbus.Collect.Total.{NamesEach, collect_points_total}
use mbsscaner.Kafka.{Broker}
use mbsscaner.Service.Polled.{Signal, tick, cancelled, Polled, start_collector}
use mbsscaner.Service.Polled.Period.{start_collector_panics}
use mbsscaner.Service.Polled.Sends.{Ends, Handed, Logs, start_collector-Ends}
use mbsscaner.Tests.Devices.{answering}
use mbsscaner.Tests.Grouping.{plant, plant-Fits}
use mbsscaner.Tests.Reading.{floats, online}
use mbsscaner.Tests.Reading

answering-Honest : Honest answering
answering-Honest = record {
  coils = λ a n w. length-slice (λ i. true) a n;
  discrete_inputs = λ a n w. length-slice (λ i. true) a n;
  registers = λ a n t w. length-slice (λ i. i + 1) a n;
}

collect_points_total_example :
    NamesEach plant (collect_points floats answering plant Reading.idle).0
collect_points_total_example =
    collect_points_total floats answering answering-Honest plant plant-Fits Reading.idle

-- Two goroutines find the connection lost; the first enters `Connect` and opens, its test passes,
-- and it takes the mutex while the second is still in its loop.
abbrev first_retries : Shared ℕ
first_retries = goto 0 (retrying 3 no_attempts) (unused Reading.idle)

abbrev both_retry : Shared ℕ
both_retry = goto 1 (retrying 3 no_attempts) first_retries

abbrev one_opens : Shared ℕ
one_opens = goto 0 (opening 2) (record both_retry { state_holder = some 0 })

abbrev one_tests : Shared ℕ
one_tests = goto 0 (testing 2) (record one_opens { collector = record Reading.idle { conn = 1 } })

abbrev one_connected : Shared ℕ
one_connected = goto 0 ensured (record one_tests { collector = online; state_holder = none })

abbrev one_works : Shared ℕ
one_works = goto 0 working (record one_connected { holder = some 0 })

two_users : Reach answering (unused Reading.idle) one_works
unfolding set_phase test_connection
two_users =
    next
      (next
        (next
          (next
            (next (next here (looks_lost 0 (unused Reading.idle) refl refl refl))
              (looks_lost 1 first_retries refl refl refl))
            (enter 0 2 no_attempts both_retry refl refl refl))
          (opens 0 2 one_opens 1 refl refl))
        (test_passes 0 2 one_tests 1 2 refl refl))
      (acquire 0 one_connected refl refl)

idle-IsFresh : IsFresh Reading.idle
idle-IsFresh h = absurd (cc h)

shared_safe_example :
    IsFresh online
    × ((online.device ≡ Reading.idle.device) × (online.max_retries ≡ 3))
    × ((i : ℕ) → attempts_left (one_works.phase i) ≤ 3)
    × ((i : ℕ)
        → HeldBy one_works.holder i (in_operation (one_works.phase i))
          × HeldBy one_works.state_holder i (in_state (one_works.phase i)))
    × ((i j : ℕ)
        → (in_operation (one_works.phase i) ≡ true
            → in_operation (one_works.phase j) ≡ true
            → i ≡ j)
          × (in_state (one_works.phase i) ≡ true → in_state (one_works.phase j) ≡ true → i ≡ j))
    × ((i : ℕ) → FlagIn (one_works.phase i) true)
shared_safe_example = shared_safe answering Reading.idle one_works idle-IsFresh two_users

-- A broker that lists the messages handed to it, and an encoder that refuses a message without
-- values.
abbrev listing : Broker
listing = record {
  State = List Handed;
  marshal = λ message. elim message.values [ [] ↦ refused (client 3) | v ∷ vs ↦ reply (123 ∷ []) ];
  send_message =
      λ topic key bytes sent. (reply tt, record { topic = topic; key = key; bytes = bytes } ∷ sent);
}

abbrev polled : Polled ℕ (List Handed)
polled = record { collector = Reading.idle; producer = some [] }

-- The tick behind the end of the goroutine is not served.
abbrev signals : List Signal
signals = tick ∷ tick ∷ cancelled ∷ tick ∷ []

abbrev message : Handed
message = record { topic = "points"; key = "plc"; bytes = 123 ∷ [] }

two_messages :
    (start_collector floats answering listing "points" "plc" plant
      (pos 10)
      signals
      polled).1.producer
    ≡ some (message ∷ message ∷ [])
unfolding start_collector
two_messages = refl

listing-Logs : Logs listing "points" (λ sent. sent)
listing-Logs t key bytes s = refl

start_collector-Ends_example :
    Ends listing "points"
      (λ sent. sent)
      "plc"
      plant
      2
      (some [])
      (start_collector floats answering listing "points" "plc" plant (pos 10) signals polled)
start_collector-Ends_example =
    start_collector-Ends floats answering answering-Honest listing "points" (λ sent. sent)
      listing-Logs "plc" plant plant-Fits 10 signals polled (omega arith) (omega arith)

-- The intervals 0, -5 and 9223372037.
start_collector_panics_example :
    (start_collector floats answering listing "points" "plc" plant (pos 0) signals polled
      ≡ (panics, polled))
    × (start_collector floats answering listing "points" "plc" plant (negsuc 4) signals polled
        ≡ (panics, polled))
    × (start_collector floats answering listing "points" "plc" plant
          (pos 9_223_372_037)
          signals
          polled
        ≡ (panics, polled))
start_collector_panics_example =
    start_collector_panics floats answering listing "points" "plc" plant signals polled 4
      9_223_372_037 (omega arith) (omega arith) (omega arith)
