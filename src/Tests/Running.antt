-- ===== src/Tests/Running.antt =====
-- Init and Stop of the service (pkg/service/service.go) at concrete inputs.
use mbsscaner.Prelude.{
  false, some, ◌+◌, ℕ, String, str_eq, ◌≡◌, refl, List, [], ◌∷◌, map, if◌then◌else◌,
}
use mbsscaner.Config.Types.{ModbusDevice, Point}
use mbsscaner.Modbus.Result.{ok, reply, refused, Reply, client}
use mbsscaner.Modbus.Manager.{new_manager}
use mbsscaner.Service.{Registry, init, init_devices, start}
use mbsscaner.Service.Started.{IsClosed, init-IsClosed}
use mbsscaner.Service.Lifecycle.{Parts, stop}
use mbsscaner.Service.Lifecycle.Stopped.{Stops, stop-Stops}
use mbsscaner.Tests.Devices.{answering}
use mbsscaner.Tests.Grouping.{plant}
use mbsscaner.Tests.Reading.{plc, online}

-- The file of one device can be read.
abbrev files : String → Reply (List Point)
files name = if str_eq name "plc.csv" then reply plant else refused (client 9)

abbrev pub clients : ModbusDevice → Reply ℕ
clients d = reply 0

abbrev site : List ModbusDevice
site = plc ∷ record plc { name = "meter"; points_file = "meter.csv" } ∷ []

abbrev running : Registry ℕ
running =
    init_devices answering clients files site (record { collectors = []; manager = new_manager })

site_starts : init answering clients files site ≡ ok running
unfolding init init_devices
site_starts = refl

-- The device without points has a collector, but is not polled.
polled : map (λ p. p.device) (start answering clients files site running) ≡ "plc" ∷ []
unfolding start init_devices
polled = refl

init-IsClosed_example : (running.collectors ≡ running.manager.collectors) × IsClosed running.manager
init-IsClosed_example = init-IsClosed answering clients files site running site_starts

-- A server whose listener counts, a producer that cannot be closed, and a connected collector.
abbrev up : Parts ℕ ℕ ℕ
up = record {
  http_server = some (record { addr = ":8080"; listener = some 0; stopped = false });
  kafka_prod = some (record { producer = 0; topic = "points"; stopped = false });
  collectors = ("plc", online) ∷ [];
}

stop-Stops_example :
    Stops answering
      (λ n. (reply tt, n + 1))
      (λ n. (refused (client 9), n))
      up
      (stop answering (λ n. (reply tt, n + 1)) (λ n. (refused (client 9), n)) up)
stop-Stops_example =
    stop-Stops answering (λ n. (reply tt, n + 1)) (λ n. (refused (client 9), n)) up (refl, refl)
