-- ===== src/Service/Lifecycle/Stopped.antt =====
-- What `Stop` of pkg/service/service.go leaves.
use mbsscaner.Prelude.{
  ◌≡◌, ◌≢◌, refl, ap, ◌⊎◌, inl, inr, String, List, true, false, Option, none, some,
}
use mbsscaner.Modbus.Result.{Result, ok, err, panics, Reply}
use mbsscaner.Modbus.Client.{Client}
use mbsscaner.Modbus.Collector.{Collector}
use mbsscaner.Http.Server
use mbsscaner.Kafka.Producer
use mbsscaner.Service.{stop_collectors}
use mbsscaner.Service.Lifecycle.{Parts, stop_one, stopped_parts, after_server, stop}
use mbsscaner.Service.Lifecycle.Closed.{
  AllOf, Both, Both-AllOf, OkWith, stop_one_panics, stop_one-OkWith, ClosedServer,
  server_stop_again, server_stop-ClosedServer, ClosedProducer, producer_stop_again,
  producer_stop-ClosedProducer, AllDisconnected, stop_collectors-AllDisconnected,
}

-- Neither the server nor the producer has been stopped.
abbrev pub IsUp : {Listener State Conn : Type 0} → Parts Listener State Conn → Type 0
IsUp {Listener} {State} s =
    AllOf (λ (t : Server.Server Listener). t.stopped ≡ false) s.http_server
    × AllOf (λ (p : Producer.Producer State). p.stopped ≡ false) s.kafka_prod

module _ (client : Client) {Listener State : Type 0}
    (close_listener : Listener → Reply (Unit {0}) × Listener)
    (close_producer : State → Reply (Unit {0}) × State) where
  open client use {Conn}

  -- Server, producer and collectors are closed.
  abbrev pub IsDown : Parts Listener State Conn → Parts Listener State Conn → Type 0
  IsDown s t =
      Both (ClosedServer close_listener) s.http_server t.http_server
      × Both (ClosedProducer close_producer) s.kafka_prod t.kafka_prod
      × AllDisconnected client s.collectors t.collectors

  -- The result of a `Stop`, and of one more behind it.
  abbrev pub Stops : Parts Listener State Conn → Result (Parts Listener State Conn) → Type 0
  Stops s (ok t) =
      IsDown s t
      × ((s.http_server ≢ none) ⊎ (s.kafka_prod ≢ none)
          → stop client close_listener close_producer t ≡ panics)
  Stops s (err e) = ⊥
  Stops s panics = ⊥

  stop_again :
      (server server' : Option (Server.Server Listener))
      (producer producer' : Option (Producer.Producer State))
      (collectors : List (String × Collector Conn))
      → Both (ClosedServer close_listener) server server'
      → Both (ClosedProducer close_producer) producer producer'
      → (server ≢ none) ⊎ (producer ≢ none)
      → stop client close_listener close_producer
          (record { http_server = server'; kafka_prod = producer'; collectors = collectors })
        ≡ panics
  unfolding stop after_server
  stop_again server (some t) producer producer' collectors down down' there =
      ap
        (λ r.
          after_server client close_listener close_producer r
            (record { http_server = some t; kafka_prod = producer'; collectors = collectors }))
        (stop_one_panics (Server.stop close_listener) t t (
          server_stop_again close_listener t (
            Both-AllOf (ClosedServer close_listener)
              (λ (t : Server.Server Listener). t.stopped ≡ true) server (some t) (λ a b h. h.0)
              down)))
  stop_again server none producer (some p) collectors down down' there =
      ap
        (stopped_parts client close_listener close_producer none
          (stop_collectors client collectors))
        (stop_one_panics (Producer.stop close_producer) p p (
          producer_stop_again close_producer p (
            Both-AllOf (ClosedProducer close_producer)
              (λ (p : Producer.Producer State). p.stopped ≡ true) producer (some p) (λ a b h. h.0)
              down')))
  stop_again none none none none collectors down down' (inl h) = absurd (h refl)
  stop_again none none none none collectors down down' (inr h) = absurd (h refl)
  stop_again (some t) none producer none collectors down down' there = elim down [ ]
  stop_again none none (some p) none collectors down down' there = elim down' [ ]

  after_server-Stops :
      (r : Result (Option (Server.Server Listener))) (s : Parts Listener State Conn)
      → OkWith (Both (ClosedServer close_listener) s.http_server) r
      → AllOf (λ (p : Producer.Producer State). p.stopped ≡ false) s.kafka_prod
      → Stops s (after_server client close_listener close_producer r s)
  unfolding after_server
  after_server-Stops (ok server) s down up =
      by_producer (stop_one (Producer.stop close_producer) s.kafka_prod) (
        stop_one-OkWith (λ (p : Producer.Producer State). p.stopped ≡ false)
          (ClosedProducer close_producer) (Producer.stop close_producer)
          (producer_stop-ClosedProducer close_producer) s.kafka_prod up)
    where
      by_producer :
          (r : Result (Option (Producer.Producer State)))
          → OkWith (Both (ClosedProducer close_producer) s.kafka_prod) r
          → Stops s (
              stopped_parts client close_listener close_producer server
                (stop_collectors client s.collectors)
                r)
      by_producer (ok producer) h = (
        (down, h, stop_collectors-AllDisconnected client s.collectors),
        stop_again s.http_server server s.kafka_prod producer (stop_collectors client s.collectors)
            down h,
      )
      by_producer (err e) h = h
      by_producer panics h = h
  after_server-Stops (err e) s down up = elim down [ ]
  after_server-Stops panics s down up = elim down [ ]

  -- `Stop` of a service that is up returns no error and does not panic, whether or not the closing
  -- of the server, the producer or a connection is refused. A server and a producer stay with their
  -- address and topic, their `stopCh` is closed, and listener and producer are in the state that
  -- their `Close` leaves; every collector stays under its name with its device, is not connected,
  -- and its connection is in the state that `Close` leaves if it was connected, and as it was
  -- otherwise. Stopping once more panics if there was a server or a producer.
  pub stop-Stops :
      (s : Parts Listener State Conn)
      → IsUp s
      → Stops s (stop client close_listener close_producer s)
  unfolding stop
  stop-Stops s up =
      after_server-Stops (stop_one (Server.stop close_listener) s.http_server) s
        (stop_one-OkWith (λ (t : Server.Server Listener). t.stopped ≡ false)
          (ClosedServer close_listener) (Server.stop close_listener)
          (server_stop-ClosedServer close_listener) s.http_server up.0)
        up.1
