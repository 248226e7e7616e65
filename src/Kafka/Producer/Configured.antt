-- ===== src/Kafka/Producer/Configured.antt =====
-- The settings of a producer (pkg/kafka/producer.go) that a validated configuration leads to.
use mbsscaner.Prelude.{
  ◌≡◌, ap, ◌∙◌, refl, sym, subst, pos, String, List, none, true, false, inl, inr,
}
use mbsscaner.Config.Settings.{AppConfig, KafkaConfig, is_positive, validate}
use mbsscaner.Config.Settings.Defaults.{validate-IsFilled}
use mbsscaner.Modbus.Result.{Result, ok, err, panics, Reply, reply, refused}
use mbsscaner.Kafka.Producer.{
  SaramaConfig, Producer, wait_for_all, codec_of, milliseconds, configure, new_producer,
  with_producer, stop, after_close,
}

configure_of_positive :
    (k : KafkaConfig) (d : SaramaConfig)
    → is_positive k.batch_size ≡ true
    → is_positive k.flush_frequency ≡ true
    → configure k d ≡ record d {
      return_successes = true;
      return_errors = true;
      required_acks = wait_for_all;
      retry_max = pos 5;
      retry_backoff = pos 1_000_000_000;
      compression = codec_of k.compression;
      flush_messages = k.batch_size;
      flush_frequency = milliseconds k.flush_frequency;
    }
unfolding configure
configure_of_positive k d h j = simp (h, j)

-- If `Validate` accepts a configuration with Kafka enabled, the producer is made with the brokers
-- that it names, waits for all replicas, and flushes by the batch size and the frequency that
-- `Validate` left, which are positive: none of the library's defaults shows through.
pub new_producer_configured :
    {State : Type 0} (defaults : SaramaConfig)
    (new_sync_producer : List String → SaramaConfig → Reply State) (c c' : AppConfig)
    → validate c ≡ (none, c')
    → c'.kafka.enable ≡ true
    → (new_producer defaults new_sync_producer c'.kafka
        ≡ with_producer c'.kafka.topic (
            new_sync_producer c'.kafka.brokers (record {
              return_successes = true;
              return_errors = true;
              required_acks = wait_for_all;
              retry_max = pos 5;
              retry_backoff = pos 1_000_000_000;
              compression = codec_of c'.kafka.compression;
              flush_messages = c'.kafka.batch_size;
              flush_frequency = milliseconds c'.kafka.flush_frequency;
            })))
      × (is_positive c'.kafka.batch_size ≡ true)
      × (is_positive c'.kafka.flush_frequency ≡ true)
unfolding new_producer
new_producer_configured defaults new_sync_producer c c' h on =
    elim (validate-IsFilled c c' h).0.kafka [
      | inl off ↦ absurd (cc (on, off))
      | inr both ↦ (
        ap (λ s. with_producer c'.kafka.topic (new_sync_producer c'.kafka.brokers s))
            (configure_of_positive c'.kafka defaults both.0 both.1),
        both.0,
        both.1,
      )
    ]

module _ {State : Type 0} (close : State → Reply (Unit {0}) × State) where
  -- A stopped producer, and a result that is no panic.
  abbrev pub IsStopped : Result (Unit {0}) × Producer State → Type 0
  IsStopped (ok u, p) = p.stopped ≡ true
  IsStopped (err e, p) = p.stopped ≡ true
  IsStopped (panics, p) = ⊥

  pub stop_first :
      (p : Producer State) → p.stopped ≡ false → stop close p ≡ after_close (close p.producer) p
  unfolding stop
  stop_first p h = simp h

  pub after_close-IsStopped :
      (r : Reply (Unit {0}) × State) (p : Producer State) → IsStopped (after_close r p)
  unfolding after_close
  after_close-IsStopped (reply u, s) p = refl
  after_close-IsStopped (refused e, s) p = refl

  pub stop_again :
      (r : Result (Unit {0}) × Producer State) → IsStopped r → stop close r.1 ≡ (panics, r.1)
  unfolding stop
  stop_again (ok u, p) h = simp h
  stop_again (err e, p) h = simp h
  stop_again (panics, p) h = elim h [ ]

  -- The first `Stop` of a producer does not panic and leaves it stopped, whether or not the library
  -- can close it; a second one panics.
  pub stop_twice :
      (p : Producer State)
      → p.stopped ≡ false
      → IsStopped (stop close p) × ((stop close (stop close p).1).0 ≡ panics)
  stop_twice p h =
      let closed = after_close-IsStopped (close p.producer) p in
      let e = stop_first p h in
      (
        subst IsStopped (sym e) closed,
        ap (λ r. (stop close r.1).0) e
            ∙ ap (λ r. r.0) (stop_again (after_close (close p.producer) p) closed),
      )
