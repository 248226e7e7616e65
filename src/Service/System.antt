-- ===== src/Service/System.antt =====
-- The running service: the collecting goroutines (pkg/service/service.go) and the HTTP handlers
-- (pkg/modbus/collector_manager.go) on the same collectors, in any order. The pointers that both
-- sides hold are the entries of the manager's map; an operation on a collector is one step.
pub mod Kept
pub mod Devices
pub mod Names
use mbsscaner.Prelude.{◌≡◌, String, List, Option, some, lookup, put}
use mbsscaner.Config.Types.{Point}
use mbsscaner.Modbus.Result.{Result}
use mbsscaner.Modbus.Client.{Client}
use mbsscaner.Modbus.Value.{Value, Floats}
use mbsscaner.Modbus.Collector.{Collector}
use mbsscaner.Modbus.Manager.{Manager, write_named, get_point_value}
use mbsscaner.Kafka.{Broker}
use mbsscaner.Service.Polled.{Polled, collect_device_data}

-- The manager, and the producer: nil, or in some state.
pub record System (Conn State : Type 0) : Type 0 where
  pub manager : Manager Conn
  pub producer : Option State

-- The collector of a device and the producer, after a round.
abbrev pub after_round :
    {Conn State : Type 0}
    → String
    → System Conn State
    → Result (Unit {0}) × Polled Conn State
    → System Conn State
after_round device s (r, p) = record {
  manager = record s.manager { collectors = put device p.collector s.manager.collectors };
  producer = p.producer;
}

module _ (floats : Floats) (client : Client) (broker : Broker) (topic : String) where
  open client use {Conn}
  open broker use {State}

  pub data Step : System Conn State → System Conn State → Type 0 where
    -- A tick of the goroutine of a device, with the points that `Start` gave it.
    round :
        (device : String) (points : List Point) (c : Collector Conn) (s : System Conn State)
        → lookup device s.manager.collectors ≡ some c
        → Step s (
            after_round device s (
              collect_device_data floats client broker topic device points
                (record { collector = c; producer = s.producer })))
    -- A write and a read through the HTTP server.
    write :
        (name : String) (v : Value) (s : System Conn State)
        → Step s (record s { manager = (write_named floats client name v s.manager).1 })
    read :
        (name : String) (s : System Conn State)
        → Step s (record s { manager = (get_point_value floats client name s.manager).1 })

  pub data Reach (s : System Conn State) : System Conn State → Type 0 where
    here : Reach s s
    next : {t u : System Conn State} → Reach s t → Step t u → Reach s u
