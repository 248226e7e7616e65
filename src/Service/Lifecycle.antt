-- ===== src/Service/Lifecycle.antt =====
-- The HTTP server and the Kafka producer in `Init`, and `Stop` (pkg/service/service.go). The context
-- and the wait for the collecting goroutines are left out.
pub mod Closed
pub mod Stopped
pub mod Begun
use mbsscaner.Prelude.{String, List, Bool, Option, none, some, if◌then◌else◌}
use mbsscaner.Config.Settings.{HttpConfig, KafkaConfig}
use mbsscaner.Modbus.Result.{Result, ok, err, panics, Reply, reply, refused, M}
use mbsscaner.Modbus.Client.{Client}
use mbsscaner.Modbus.Collector.{Collector}
use mbsscaner.Http.Server.{Server, Route, new_server}
use mbsscaner.Http.Server
use mbsscaner.Kafka.Producer.{Producer, SaramaConfig, new_producer}
use mbsscaner.Kafka.Producer
use mbsscaner.Service.{stop_collectors}

-- What `Stop` stops: the HTTP server and the producer, if they are there, and the collectors.
pub record Parts (Listener State Conn : Type 0) : Type 0 where
  pub http_server : Option (Server Listener)
  pub kafka_prod : Option (Producer State)
  pub collectors : List (String × Collector Conn)

-- `Start` of the server returns no error; if it did, the server would be kept.
unfoldable pub init_server :
    {Listener : Type 0} → (String → List Route → Listener) → HttpConfig → Option (Server Listener)
unfolding new_server Server.start
init_server listen http =
    if http.enable then some (Server.start listen (new_server http.addr)).1 else none

-- A producer that cannot be made is only logged.
abbrev pub kept : {State : Type 0} → Reply (Producer State) → Option (Producer State)
kept (refused e) = none
kept (reply p) = some p

unfoldable pub init_producer :
    {State : Type 0}
    → SaramaConfig
    → (List String → SaramaConfig → Reply State)
    → KafkaConfig
    → Option (Producer State)
unfolding new_producer
init_producer defaults new_sync_producer kafka =
    if kafka.enable then kept (new_producer defaults new_sync_producer kafka) else none

-- `if s.x != nil { if err := s.x.Stop(); … }`: an error is only logged, a panic ends the process.
abbrev pub stop_one : {A : Type 0} → M A (Unit {0}) → Option A → Result (Option A)
stop_one stop none = ok none
stop_one stop (some a) = logged (stop a)
  where
    logged : {A : Type 0} → Result (Unit {0}) × A → Result (Option A)
    logged (ok u, a) = ok (some a)
    logged (err e, a) = ok (some a)
    logged (panics, a) = panics

module _ (client : Client) {Listener State : Type 0}
    (close_listener : Listener → Reply (Unit {0}) × Listener)
    (close_producer : State → Reply (Unit {0}) × State) where
  open client use {Conn}

  -- What follows the stop of the producer, which is the last.
  abbrev stopped_parts :
      Option (Server Listener)
      → List (String × Collector Conn)
      → Result (Option (Producer State))
      → Result (Parts Listener State Conn)
  stopped_parts server collectors (ok producer) =
      ok (record { http_server = server; kafka_prod = producer; collectors = collectors })
  stopped_parts server collectors (err e) = err e
  stopped_parts server collectors panics = panics

  -- What follows the stop of the server.
  unfoldable pub after_server :
      Result (Option (Server Listener))
      → Parts Listener State Conn
      → Result (Parts Listener State Conn)
  unfolding stop_collectors Producer.stop
  after_server (ok server) s =
      stopped_parts server (stop_collectors client s.collectors)
        (stop_one (Producer.stop close_producer) s.kafka_prod)
  after_server (err e) s = err e
  after_server panics s = panics

  unfoldable pub stop : Parts Listener State Conn → Result (Parts Listener State Conn)
  unfolding after_server Server.stop
  stop s = after_server (stop_one (Server.stop close_listener) s.http_server) s
