-- ===== src/Service/Polled.antt =====
-- The collecting goroutine of a device: `startCollector` and `collectDeviceData`
-- (pkg/service/service.go). What its `select` receives is a list of signals. Left out are the log
-- lines, and with them the statistics that are only logged.
pub mod Period
pub mod Sends
use mbsscaner.Prelude.{
  ℕ, ◌*◌, ◌%◌, ℤ, signed, unsigned, String, List, [], ◌∷◌, Option, none, some, if◌then◌else◌,
}
use mbsscaner.Config.Types.{Point}
use mbsscaner.Config.Settings.{is_positive}
use mbsscaner.Modbus.Result.{Result, ok, err, panics, M, ◌>>=◌, return}
use mbsscaner.Modbus.Client.{Client}
use mbsscaner.Modbus.Value.{Floats}
use mbsscaner.Modbus.Collector.{Collector}
use mbsscaner.Modbus.Collect.{PointValue, collect_points}
use mbsscaner.Kafka.{Broker, send_point_values}

-- `ticker.C` and `s.ctx.Done()`.
pub data Signal : Type 0 where
  tick cancelled : Signal

-- `time.Duration(interval) * time.Second`, which wraps around as an int64.
unfoldable pub period : ℤ → ℤ
period interval =
    signed 0x8000_0000_0000_0000
      (unsigned 0x8000_0000_0000_0000 interval * 1_000_000_000 % 0x1_0000_0000_0000_0000)

-- The collector, and `kafkaProd`: nil, or a producer in some state.
pub record Polled (Conn State : Type 0) : Type 0 where
  pub collector : Collector Conn
  pub producer : Option State

module _ (floats : Floats) (client : Client) (broker : Broker) (topic : String) where
  open client use {Conn}
  open broker use {State}

  -- An error of the producer is only logged.
  unfoldable pub sent : String → List PointValue → Option State → Option State
  unfolding send_point_values
  sent device values none = none
  sent device values (some s) = some (send_point_values broker topic device values s).1

  unfoldable pub after_collect :
      String
      → Option State
      → Result (List PointValue) × Collector Conn
      → Result (Unit {0}) × Polled Conn State
  unfolding sent
  after_collect device p (ok values, c) =
      (ok tt, record { collector = c; producer = sent device values p })
  after_collect device p (err e, c) = (ok tt, record { collector = c; producer = p })
  after_collect device p (panics, c) = (panics, record { collector = c; producer = p })

  unfoldable pub collect_device_data : String → List Point → M (Polled Conn State) (Unit {0})
  unfolding after_collect collect_points
  collect_device_data device points s =
      after_collect device s.producer (collect_points floats client points s.collector)

  -- The loop, over the signals that it receives.
  unfoldable pub poll : String → List Point → List Signal → M (Polled Conn State) (Unit {0})
  unfolding collect_device_data
  poll device points [] = return tt
  poll device points (cancelled ∷ signals) = return tt
  poll device points (tick ∷ signals) = do
    _ ← collect_device_data device points
    poll device points signals

  -- `time.NewTicker` panics unless the period is positive.
  unfoldable pub start_collector :
      String → List Point → ℤ → List Signal → M (Polled Conn State) (Unit {0})
  unfolding poll period is_positive
  start_collector device points interval signals s =
      if is_positive (period interval) then poll device points signals s else (panics, s)
