-- ===== src/Modbus/Manager.antt =====
-- `CollectorManager` (pkg/modbus/collector_manager.go). The locks are left out: each operation is
-- one step. A collector is shared with the service through a pointer; here the manager's map holds
-- its state, so a write or a read through the manager stores the changed collector back.
pub mod Registered
pub mod WriteRead
use mbsscaner.Prelude.{String, List, [], ◌∷◌, Option, none, some, lookup, put}
use mbsscaner.Config.Types.{Point}
use mbsscaner.Modbus.Result.{
  Result, ok, err, panics, M, point_not_found, collector_not_found, config_not_found,
}
use mbsscaner.Modbus.Client.{Client}
use mbsscaner.Modbus.Value.{Value, Floats}
use mbsscaner.Modbus.Collector.{Collector}
use mbsscaner.Modbus.Collect.{PointValue}
use mbsscaner.Modbus.Write.{write_point}
use mbsscaner.Modbus.Single.{read_single_point}

pub record Manager (Conn : Type 0) : Type 0 where
  pub collectors : List (String × Collector Conn)
  pub points : List (String × Point)
  pub device_map : List (String × String)

-- What `WritePoint` and `GetPointValue` look up.
pub record Target (Conn : Type 0) : Type 0 where
  pub device : String
  pub collector : Collector Conn
  pub point : Point

module _ {Conn : Type 0} where
  unfoldable pub new_manager : Manager Conn
  new_manager = record { collectors = []; points = []; device_map = [] }

  unfoldable pub register_collector : String → Collector Conn → Manager Conn → Manager Conn
  register_collector device c m = record m { collectors = put device c m.collectors }

  unfoldable pub register_point : Point → String → Manager Conn → Manager Conn
  register_point p device m = record m {
    points = put p.name p m.points;
    device_map = put p.name device m.device_map;
  }

  -- The chain of lookups, from the last to the first.
  unfoldable pub with_point : String → String → Collector Conn → Option Point → Result (Target Conn)
  with_point name device c none = err (config_not_found name)
  with_point name device c (some p) = ok (record { device = device; collector = c; point = p })

  unfoldable pub with_collector :
      String → String → Option (Collector Conn) → Manager Conn → Result (Target Conn)
  unfolding with_point
  with_collector name device none m = err (collector_not_found device)
  with_collector name device (some c) m = with_point name device c (lookup name m.points)

  unfoldable pub with_device : String → Option String → Manager Conn → Result (Target Conn)
  unfolding with_collector
  with_device name none m = err (point_not_found name)
  with_device name (some device) m = with_collector name device (lookup device m.collectors) m

  unfoldable pub find : String → Manager Conn → Result (Target Conn)
  unfolding with_device
  find name m = with_device name (lookup name m.device_map) m

  -- Runs an action on the collector of the target, and stores the collector.
  abbrev pub on_target :
      {A : Type 0}
      → Result (Target Conn)
      → (Point → M (Collector Conn) A)
      → Manager Conn
      → Result A × Manager Conn
  on_target (ok t) act m =
      let (r, c) = act t.point t.collector in
      (r, record m { collectors = put t.device c m.collectors })
  on_target (err e) act m = (err e, m)
  on_target panics act m = (panics, m)

abbrev pub value_alone : {S : Type 0} → Result PointValue × S → Result Value × S
value_alone (ok v, s) = (ok v.value, s)
value_alone (err e, s) = (err e, s)
value_alone (panics, s) = (panics, s)

module _ (floats : Floats) (client : Client) where
  open client use {Conn}

  -- `WritePoint` of the manager.
  unfoldable pub write_named : String → Value → M (Manager Conn) (Unit {0})
  unfolding find write_point
  write_named name v m = on_target (find name m) (λ p. write_point floats client p v) m

  unfoldable pub get_point_value : String → M (Manager Conn) Value
  unfolding find read_single_point
  get_point_value name m =
      value_alone (on_target (find name m) (λ p. read_single_point floats client p) m)
