-- ===== src/Kafka/Producer.antt =====
-- `NewProducer`, `Stop` and `GetTopic` of pkg/kafka/producer.go. The library's `NewConfig`,
-- `NewSyncProducer` and `Close` are parameters; `wg`, to which nothing is added, is left out.
pub mod Configured
use mbsscaner.Prelude.{
  ℕ, ◌*◌, ◌%◌, ℤ, pos, signed, unsigned, String, str_eq, List, Bool, true, false, if◌then◌else◌,
}
use mbsscaner.Config.Settings.{KafkaConfig, is_positive}
use mbsscaner.Modbus.Result.{Result, ok, err, panics, err, Reply, reply, refused, M, of_reply}

pub data Codec : Type 0 where
  uncompressed gzip snappy lz4 zstd : Codec

pub data Acks : Type 0 where
  no_response wait_for_local wait_for_all : Acks

-- The fields of `sarama.Config` that are set; a `time.Duration` is in nanoseconds.
pub record SaramaConfig : Type 0 where
  pub return_successes : Bool
  pub return_errors : Bool
  pub required_acks : Acks
  pub retry_max : ℤ
  pub retry_backoff : ℤ
  pub compression : Codec
  pub flush_messages : ℤ
  pub flush_frequency : ℤ

-- `producer` is nil before it is made; `stopped` is whether `stopCh` is closed.
pub record Producer (State : Type 0) : Type 0 where
  pub producer : State
  pub topic : String
  pub stopped : Bool

unfoldable pub codec_of : String → Codec
codec_of name =
    if str_eq name "gzip"
    then gzip
    else if str_eq name "snappy"
    then snappy
    else if str_eq name "lz4"
    then lz4
    else if str_eq name "zstd"
    then zstd
    else uncompressed

-- `time.Duration(z) * time.Millisecond`, which wraps around as an int64.
unfoldable pub milliseconds : ℤ → ℤ
milliseconds z =
    signed 0x8000_0000_0000_0000
      (unsigned 0x8000_0000_0000_0000 z * 1_000_000 % 0x1_0000_0000_0000_0000)

unfoldable pub configure : KafkaConfig → SaramaConfig → SaramaConfig
unfolding codec_of milliseconds is_positive
configure k d = record {
  return_successes = true;
  return_errors = true;
  required_acks = wait_for_all;
  retry_max = pos 5;
  retry_backoff = pos 1_000_000_000;
  compression = codec_of k.compression;
  flush_messages = if is_positive k.batch_size then k.batch_size else d.flush_messages;
  flush_frequency =
      if is_positive k.flush_frequency then milliseconds k.flush_frequency else d.flush_frequency;
}

module _ {State : Type 0} where
  unfoldable pub with_producer : String → Reply State → Reply (Producer State)
  with_producer topic (refused e) = refused e
  with_producer topic (reply s) = reply (record { producer = s; topic = topic; stopped = false })

  unfoldable pub new_producer :
      SaramaConfig
      → (List String → SaramaConfig → Reply State)
      → KafkaConfig
      → Reply (Producer State)
  unfolding configure with_producer
  new_producer defaults new_sync_producer k =
      with_producer k.topic (new_sync_producer k.brokers (configure k defaults))

  unfoldable pub get_topic : Producer State → String
  get_topic p = p.topic

  unfoldable pub after_close :
      Reply (Unit {0}) × State → Producer State → Result (Unit {0}) × Producer State
  after_close (reply u, s) p = (ok tt, record p { producer = s; stopped = true })
  after_close (refused e, s) p = (err e, record p { producer = s; stopped = true })

  -- Closing a channel that is closed panics.
  unfoldable pub stop : (State → Reply (Unit {0}) × State) → M (Producer State) (Unit {0})
  unfolding after_close
  stop close p = if p.stopped then (panics, p) else after_close (close p.producer) p
