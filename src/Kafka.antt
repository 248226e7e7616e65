-- ===== src/Kafka.antt =====
-- `SendPointValues` of pkg/kafka/producer.go. The encoder of encoding/json and the producer of the
-- Kafka library are parameters; the headers of the message and the log lines are left out.
pub mod Published
pub mod Delivered
pub mod Producer
use mbsscaner.Prelude.{ℕ, String, List, [], ◌∷◌, put}
use mbsscaner.Modbus.Result.{Reply, reply, refused, Result, M, call, ◌>>=◌}
use mbsscaner.Modbus.Batch.{lift}
use mbsscaner.Modbus.Value.{Value}
use mbsscaner.Modbus.Collect.{PointValue}

pub record SimpleMessage : Type 0 where
  pub device : String
  pub values : List (String × Value)

-- The loop that fills the map, from the first value on.
unfoldable pub add_values : List (String × Value) → List PointValue → List (String × Value)
add_values m [] = m
add_values m (v ∷ vs) = add_values (put v.name v.value m) vs

unfoldable pub simple_message : String → List PointValue → SimpleMessage
unfolding add_values
simple_message device values = record { device = device; values = add_values [] values }

-- `json.Marshal` of a message and `SendMessage` with a topic, a key and the bytes of a message.
pub record Broker : Type 1 where
  pub State : Type 0
  pub marshal : SimpleMessage → Reply (List ℕ)
  pub send_message : String → String → List ℕ → State → Reply (Unit {0}) × State

module _ (broker : Broker) where
  open broker use {State, marshal, send_message}

  unfoldable pub send_point_values : String → String → List PointValue → M State (Unit {0})
  unfolding simple_message
  send_point_values topic device values = do
    bytes ← call λ s. (marshal (simple_message device values), s)
    call (send_message topic device bytes)
