-- ===== src/Service/Polled/Sends.antt =====
-- What the collecting goroutine of a device (pkg/service/service.go) sends.
use mbsscaner.Prelude.{
  ℕ, zero, suc, ◌≤◌, ◌<◌, ◌≡◌, refl, ap, subst, ◌∙◌, pos, String, List, [], ◌∷◌, Option, none, some,
  All,
}
use mbsscaner.Config.Types.{Point}
use mbsscaner.Modbus.Result.{
  Result, ok, err, panics, Reply, reply, refused, then_run, of_reply, call,
}
use mbsscaner.Modbus.Client.{Client}
use mbsscaner.Modbus.Value.{Floats}
use mbsscaner.Modbus.Grouping.Runs.{Fits}
use mbsscaner.Modbus.Batch.Sized.{Honest}
use mbsscaner.Modbus.Collector.{Collector}
use mbsscaner.Modbus.Collect.{PointValue, collect_points}
use mbsscaner.Modbus.Collect.Total.{NamesEach, collect_points_total}
use mbsscaner.Kafka.{Broker, simple_message, send_point_values}
use mbsscaner.Service.Polled.{
  Signal, tick, cancelled, Polled, sent, after_collect, collect_device_data, poll, start_collector,
}
use mbsscaner.Service.Polled.Period.{period_positive}

-- The ticks that arrive before the goroutine is told to stop.
abbrev pub ticks : List Signal → ℕ
ticks [] = 0
ticks (cancelled ∷ signals) = 0
ticks (tick ∷ signals) = suc (ticks signals)

-- A message that was handed to `SendMessage`: its topic, its key and its bytes.
pub record Handed : Type 0 where
  pub topic : String
  pub key : String
  pub bytes : List ℕ

-- What a round adds to the messages: nothing if the encoder refuses.
abbrev pub handed : String → String → Reply (List ℕ) → List Handed → List Handed
handed topic key (refused e) log = log
handed topic key (reply bytes) log = record { topic = topic; key = key; bytes = bytes } ∷ log

module _ (broker : Broker) (topic : String) (log : broker.State → List Handed) where
  open broker use {State, marshal, send_message}

  -- What `n` rounds add to the messages: each the message of one list of values, with a value under
  -- the name of every point.
  abbrev pub Sent : String → List Point → ℕ → List Handed → List Handed → Type 0
  Sent device points zero l l' = l' ≡ l
  Sent device points (suc n) l l' =
      (values : List PointValue) × NamesEach points (ok values)
      × Sent device points n (handed topic device (marshal (simple_message device values)) l) l'

  -- The same for a producer that may be missing.
  abbrev pub Sends : String → List Point → ℕ → Option State → Option State → Type 0
  Sends device points n none p' = p' ≡ none
  Sends device points n (some s) p' =
      (s' : State) × (p' ≡ some s') × Sent device points n (log s) (log s')

  -- A goroutine that ends without a panic, after `n` rounds.
  abbrev pub Ends :
      {Conn : Type 0}
      → String
      → List Point
      → ℕ
      → Option State
      → Result (Unit {0}) × Polled Conn State
      → Type 0
  Ends device points n p (ok u, s') = Sends device points n p s'.producer
  Ends device points n p (err e, s') = ⊥
  Ends device points n p (panics, s') = ⊥

  -- `log` lists the messages that were handed to `SendMessage`, the last one first.
  abbrev pub Logs : Type 0
  Logs =
      (t key : String) (bytes : List ℕ) (s : State)
      → log (send_message t key bytes s).1 ≡ record { topic = t; key = key; bytes = bytes } ∷ log s

  send_point_values-handed :
      (device : String) (values : List PointValue) (s : State)
      → Logs
      → log (send_point_values broker topic device values s).1
        ≡ handed topic device (marshal (simple_message device values)) (log s)
  unfolding send_point_values
  send_point_values-handed device values s logs = encoded (marshal (simple_message device values))
    where
      called : (r : Reply (Unit {0}) × State) → (of_reply r).1 ≡ r.1
      called (reply u, t) = refl
      called (refused e, t) = refl

      encoded :
          (r : Reply (List ℕ))
          → log (then_run (of_reply (r, s)) λ bytes. call (send_message topic device bytes)).1
            ≡ handed topic device r (log s)
      encoded (refused e) = refl
      encoded (reply bytes) =
          ap log (called (send_message topic device bytes s)) ∙ logs topic device bytes s

  Sends-step :
      (floats : Floats) (client : Client) (device : String) (points : List Point) (n : ℕ)
      (values : List PointValue) (p p' : Option State)
      → Logs
      → NamesEach points (ok values)
      → Sends device points n (sent floats client broker topic device values p) p'
      → Sends device points (suc n) p p'
  unfolding sent
  Sends-step floats client device points n values none p' logs h k = k
  Sends-step floats client device points n values (some s) p' logs h (s', e, k) = (
    s',
    e,
    (
      values,
      h,
      subst (λ l. Sent device points n l (log s')) (send_point_values-handed device values s logs)
          k,
    ),
  )

module _ (floats : Floats) (client : Client) (honest : Honest client) (broker : Broker)
    (topic : String) (log : broker.State → List Handed) (logs : Logs broker topic log)
    (device : String) (points : List Point) (fits : All Fits points) where
  open client use {Conn}
  open broker use {State}

  -- A round, before the rounds behind it.
  round-Ends :
      (n : ℕ) (p : Option State) (rest : Polled Conn State → Result (Unit {0}) × Polled Conn State)
      → ((s : Polled Conn State) → Ends broker topic log device points n s.producer (rest s))
      → (r : Result (List PointValue) × Collector Conn) → NamesEach points r.0
      → Ends broker topic log device points
          (suc n)
          p
          (then_run (after_collect floats client broker topic device p r) λ _. rest)
  unfolding after_collect
  round-Ends n p rest h (ok values, c) each =
      let s : Polled Conn State = record {
        collector = c;
        producer = sent floats client broker topic device values p;
      } in
      add (rest s) (h s)
    where
      add :
          (r : Result (Unit {0}) × Polled Conn State)
          → Ends broker topic log device points n
              (sent floats client broker topic device values p)
              r
          → Ends broker topic log device points (suc n) p r
      add (ok u, s') k =
          Sends-step broker topic log floats client device points n values p s'.producer logs each k
      add (err e, s') k = k
      add (panics, s') k = k
  round-Ends n p rest h (err e, c) each = elim each [ ]
  round-Ends n p rest h (panics, c) each = elim each [ ]

  nothing_sent : (p : Option State) → Sends broker topic log device points zero p p
  nothing_sent none = refl
  nothing_sent (some s) = (s, refl, refl)

  poll-Ends :
      (signals : List Signal) (s : Polled Conn State)
      → Ends broker topic log device points
          (ticks signals)
          s.producer
          (poll floats client broker topic device points signals s)
  unfolding poll collect_device_data
  poll-Ends [] s = nothing_sent s.producer
  poll-Ends (cancelled ∷ signals) s = nothing_sent s.producer
  poll-Ends (tick ∷ signals) s =
      round-Ends (ticks signals) s.producer (poll floats client broker topic device points signals)
        (poll-Ends signals) (collect_points floats client points s.collector)
        (collect_points_total floats client honest points fits s.collector)

  -- With an interval from 1 up to 9223372035 seconds, the goroutine of a device ends without a
  -- panic, whatever the connection does. Each tick that comes before it is told to stop is one
  -- round, with a value under the name of every point; the messages handed to `SendMessage` are, in
  -- order, the encoded message of each round, with the topic of the producer and the name of the
  -- device as key, and none for a round whose message `json.Marshal` refuses. Whether Kafka takes
  -- them is left open; without a producer nothing is sent. The library answers a read with as many
  -- values as were asked for, or refuses it; every point has at least one register and ends below
  -- register 0xFFFF; `log` lists the messages that were handed to `SendMessage`.
  pub start_collector-Ends :
      (interval : ℕ) (signals : List Signal) (s : Polled Conn State)
      → 1 ≤ interval
      → interval < 9_223_372_036
      → Ends broker topic log device points
          (ticks signals)
          s.producer
          (start_collector floats client broker topic device points (pos interval) signals s)
  unfolding start_collector
  start_collector-Ends interval signals s h k =
      rw (period_positive interval h k) (poll-Ends signals s)
