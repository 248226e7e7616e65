-- ===== src/Service/Lifecycle/Begun.antt =====
-- The HTTP server and the producer that `Init` of pkg/service/service.go makes.
use mbsscaner.Prelude.{◌≡◌, refl, String, List, Bool, true, false, none, some, if◌then◌else◌}
use mbsscaner.Config.Settings.{HttpConfig, KafkaConfig}
use mbsscaner.Modbus.Result.{Reply, reply, refused}
use mbsscaner.Modbus.Collector.{Collector}
use mbsscaner.Http.Server
use mbsscaner.Kafka.Producer
use mbsscaner.Service.Lifecycle.{init_server, init_producer, kept}
use mbsscaner.Service.Lifecycle.Closed.{AllOf}
use mbsscaner.Service.Lifecycle.Stopped.{IsUp}

server-IsUp :
    {Listener : Type 0} (listen : String → List Server.Route → Listener) (http : HttpConfig)
    (b : Bool)
    → AllOf
        (λ (t : Server.Server Listener). t.stopped ≡ false)
        (if b then some (Server.start listen (Server.new_server http.addr)).1 else none)
unfolding Server.start Server.new_server
server-IsUp listen http true = refl
server-IsUp listen http false = tt

producer-IsUp :
    {State : Type 0} (topic : String) (r : Reply State) (b : Bool)
    → AllOf
        (λ (p : Producer.Producer State). p.stopped ≡ false)
        (if b then kept (Producer.with_producer topic r) else none)
unfolding Producer.with_producer
producer-IsUp topic (reply s) true = refl
producer-IsUp topic (refused e) true = tt
producer-IsUp topic r false = tt

module _ {Listener State Conn : Type 0} where
  -- What `Init` makes has not been stopped, whether or not the server and the producer are enabled
  -- and can be made.
  pub init_parts-IsUp :
      (listen : String → List Server.Route → Listener) (http : HttpConfig)
      (defaults : Producer.SaramaConfig)
      (new_sync_producer : List String → Producer.SaramaConfig → Reply State) (kafka : KafkaConfig)
      (collectors : List (String × Collector Conn))
      → IsUp (record {
        http_server = init_server listen http;
        kafka_prod = init_producer defaults new_sync_producer kafka;
        collectors = collectors;
      })
  unfolding init_server init_producer Producer.new_producer
  init_parts-IsUp listen http defaults new_sync_producer kafka collectors = (
    server-IsUp listen http http.enable,
    producer-IsUp kafka.topic (new_sync_producer kafka.brokers (Producer.configure kafka defaults))
        kafka.enable,
  )
