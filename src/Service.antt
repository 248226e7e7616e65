-- ===== src/Service.antt =====
-- `Init`, `Start` and `Stop` of pkg/service/service.go, and `NewCollector` of
-- pkg/modbus/collector.go. The library's `NewClient` and the reading of a points file are
-- parameters. Left out are the HTTP server and the Kafka producer, whose failures `Init` only logs,
-- the context, and the wait for the collecting goroutines.
pub mod Started
pub mod Polled
pub mod Launched
pub mod Lifecycle
pub mod Files
pub mod System
use mbsscaner.Prelude.{ℤ, String, List, [], ◌∷◌, map, Option, none, some, lookup, put}
use mbsscaner.Config.Types.{ModbusDevice, Point}
use mbsscaner.Config.Points.{validate_points, PointsError}
use mbsscaner.Modbus.Result.{Result, ok, err, Reply, reply, refused, no_valid_collectors}
use mbsscaner.Modbus.Client.{Client}
use mbsscaner.Modbus.Collector.{Collector, fresh_collector, connect, disconnect}
use mbsscaner.Modbus.Manager.{Manager, new_manager, register_collector, register_point}

-- The service's own map of collectors, and the manager that it fills. Both hold the same pointers.
pub record Registry (Conn : Type 0) : Type 0 where
  pub collectors : List (String × Collector Conn)
  pub manager : Manager Conn

-- The arguments of one `startCollector`.
pub record Polling (Conn : Type 0) : Type 0 where
  pub device : String
  pub collector : Collector Conn
  pub points : List Point
  pub interval : ℤ

-- `RegisterPoint` for each point of the list.
unfoldable pub register_points : {Conn : Type 0} → List Point → String → Manager Conn → Manager Conn
unfolding register_point
register_points [] device m = m
register_points (p ∷ ps) device m = register_points ps device (register_point p device m)

module _ (client : Client) (new_client : ModbusDevice → Reply client.Conn)
    (load_points : String → Reply (List Point)) where
  open client use {Conn}

  -- An error of the first `Connect` is only logged.
  abbrev connected_first : ModbusDevice → Reply Conn → Reply (Collector Conn)
  connected_first device (reply w) = reply (connect client (fresh_collector client w device)).1
  connected_first device (refused e) = refused e

  unfoldable pub new_collector : ModbusDevice → Reply (Collector Conn)
  unfolding connect fresh_collector
  new_collector device = connected_first device (new_client device)

  unfoldable pub after_validation :
      Option PointsError → List Point → String → Registry Conn → Registry Conn
  unfolding register_points
  after_validation (some e) points device s = s
  after_validation none points device s = record s {
    manager = register_points points device s.manager;
  }

  unfoldable pub after_load : Reply (List Point) → String → Registry Conn → Registry Conn
  unfolding after_validation validate_points
  after_load (refused e) device s = s
  after_load (reply points) device s = after_validation (validate_points points) points device s

  -- The body of the loop of `Init`: an error passes on to the next device.
  unfoldable pub after_new_collector :
      Reply (Collector Conn) → ModbusDevice → Registry Conn → Registry Conn
  unfolding after_load register_collector
  after_new_collector (refused e) d s = s
  after_new_collector (reply c) d s = after_load (load_points d.points_file) d.name (record s {
    collectors = put d.name c s.collectors;
    manager = register_collector d.name c s.manager;
  })

  unfoldable pub init_devices : List ModbusDevice → Registry Conn → Registry Conn
  unfolding after_new_collector new_collector
  init_devices [] s = s
  init_devices (d ∷ ds) s = init_devices ds (after_new_collector (new_collector d) d s)

  abbrev some_collector : Registry Conn → List (String × Collector Conn) → Result (Registry Conn)
  some_collector s [] = err no_valid_collectors
  some_collector s (c ∷ cs) = ok s

  unfoldable pub init : List ModbusDevice → Result (Registry Conn)
  unfolding init_devices new_manager
  init devices =
      let s = init_devices devices (record { collectors = []; manager = new_manager }) in
      some_collector s s.collectors

  -- The points are loaded again and not validated.
  abbrev pub with_loaded :
      Reply (List Point) → ModbusDevice → Collector Conn → List (Polling Conn) → List (Polling Conn)
  with_loaded (refused e) d c rest = rest
  with_loaded (reply ps) d c rest =
      record { device = d.name; collector = c; points = ps; interval = d.interval } ∷ rest

  abbrev pub with_existing :
      Option (Collector Conn) → ModbusDevice → List (Polling Conn) → List (Polling Conn)
  with_existing none d rest = rest
  with_existing (some c) d rest = with_loaded (load_points d.points_file) d c rest

  unfoldable pub start : List ModbusDevice → Registry Conn → List (Polling Conn)
  start [] s = []
  start (d ∷ ds) s = with_existing (lookup d.name s.collectors) d (start ds s)

module _ (client : Client) where
  -- The loop of `Stop` over the collectors; `Close` disconnects.
  unfoldable pub stop_collectors :
      List (String × Collector client.Conn) → List (String × Collector client.Conn)
  unfolding disconnect
  stop_collectors [] = []
  stop_collectors ((n, c) ∷ cs) = (n, disconnect client c) ∷ stop_collectors cs
