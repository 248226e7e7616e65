-- ===== src/Service/Lifecycle/Closed.antt =====
-- What the parts of the service are once `Stop` has closed them (pkg/http/server.go,
-- pkg/kafka/producer.go, pkg/modbus/collector.go).
use mbsscaner.Prelude.{
  ◌≡◌, refl, sym, subst, inl, inr, String, List, [], ◌∷◌, Bool, true, false, Option, none, some,
  Bool-cases, if◌then◌else◌,
}
use mbsscaner.Modbus.Result.{Result, ok, err, panics, Reply, reply, refused, M}
use mbsscaner.Modbus.Client.{Client}
use mbsscaner.Modbus.Collector.{Collector, disconnect}
use mbsscaner.Http.Server
use mbsscaner.Kafka.Producer
use mbsscaner.Kafka.Producer.Configured.{stop_first}
use mbsscaner.Service.{stop_collectors}
use mbsscaner.Service.Lifecycle.{stop_one, stop}

module _ {A : Type 0} where
  -- A property of what is there.
  abbrev pub AllOf : (A → Type 0) → Option A → Type 0
  AllOf P none = Unit
  AllOf P (some a) = P a

  -- What was there is still there, and related to what it was.
  abbrev pub Both : (A → A → Type 0) → Option A → Option A → Type 0
  Both Q none o = o ≡ none
  Both Q (some a) none = ⊥
  Both Q (some a) (some b) = Q a b

  pub Both-AllOf :
      (Q : A → A → Type 0) (P : A → Type 0) (o o' : Option A)
      → ((a b : A) → Q a b → P b)
      → Both Q o o'
      → AllOf P o'
  Both-AllOf Q P none none h k = tt
  Both-AllOf Q P none (some b) h k = cc
  Both-AllOf Q P (some a) none h k = elim k [ ]
  Both-AllOf Q P (some a) (some b) h k = h a b k

  -- No panic, and a property of the new state, with or without an error.
  abbrev pub Leaves : (A → Type 0) → Result (Unit {0}) × A → Type 0
  Leaves P (ok u, a) = P a
  Leaves P (err e, a) = P a
  Leaves P (panics, a) = ⊥

  abbrev pub OkWith : (Option A → Type 0) → Result (Option A) → Type 0
  OkWith P (ok o) = P o
  OkWith P (err e) = ⊥
  OkWith P panics = ⊥

  pub stop_one_panics :
      (stop : M A (Unit {0})) (a b : A) → stop a ≡ (panics, b) → stop_one stop (some a) ≡ panics
  stop_one_panics stop a b e = subst (λ r. stop_one (λ _. r) (some a) ≡ panics) (sym e) refl

  pub stop_one-OkWith :
      (F : A → Type 0) (Q : A → A → Type 0) (stop : M A (Unit {0}))
      → ((a : A) → F a → Leaves (Q a) (stop a))
      → (o : Option A) → AllOf F o
      → OkWith (Both Q o) (stop_one stop o)
  stop_one-OkWith F Q stop h none k = refl
  stop_one-OkWith F Q stop h (some a) k = logged (stop a) (h a k)
    where
      logged :
          (r : Result (Unit {0}) × A)
          → Leaves (Q a) r
          → OkWith (Both Q (some a)) (stop_one (λ _. r) (some a))
      logged (ok u, b) p = p
      logged (err e, b) p = p
      logged (panics, b) p = p

module _ {Listener : Type 0} (close : Listener → Reply (Unit {0}) × Listener) where
  -- The listener is what `Close` left, if there was one.
  abbrev pub ClosedListener : Option Listener → Option Listener → Type 0
  ClosedListener none o = o ≡ none
  ClosedListener (some l) o = o ≡ some (close l).1

  -- `stopCh` is closed, and so was the listener.
  abbrev pub ClosedServer : Server.Server Listener → Server.Server Listener → Type 0
  ClosedServer s t = (t.stopped ≡ true) × (t.addr ≡ s.addr) × ClosedListener s.listener t.listener

  after_close-ClosedServer :
      (r : Reply (Unit {0}) × Listener) (s : Server.Server Listener)
      → Leaves
          (λ (t : Server.Server Listener).
            (t.stopped ≡ true) × (t.addr ≡ s.addr) × (t.listener ≡ some r.1))
          (Server.after_close r s)
  unfolding Server.after_close
  after_close-ClosedServer (reply u, l) s = (refl, refl, refl)
  after_close-ClosedServer (refused e, l) s = (refl, refl, refl)

  close_listener-ClosedServer :
      (addr : String) (o : Option Listener) (b : Bool)
      → Leaves
          (ClosedServer (record { addr = addr; listener = o; stopped = b }))
          (Server.close_listener close o (record { addr = addr; listener = o; stopped = b }))
  unfolding Server.close_listener
  close_listener-ClosedServer addr none b = (refl, refl, refl)
  close_listener-ClosedServer addr (some l) b =
      after_close-ClosedServer (close l) (record { addr = addr; listener = some l; stopped = b })

  server_stop_first :
      (s : Server.Server Listener)
      → s.stopped ≡ false
      → Server.stop close s ≡ Server.close_listener close s.listener s
  unfolding Server.stop
  server_stop_first s h = simp h

  pub server_stop_again :
      (s : Server.Server Listener) → s.stopped ≡ true → Server.stop close s ≡ (panics, s)
  unfolding Server.stop
  server_stop_again s h = simp h

  pub server_stop-ClosedServer :
      (s : Server.Server Listener)
      → s.stopped ≡ false
      → Leaves (ClosedServer s) (Server.stop close s)
  server_stop-ClosedServer s h =
      subst (Leaves (ClosedServer s)) (sym (server_stop_first s h))
        (close_listener-ClosedServer s.addr s.listener s.stopped)

module _ {State : Type 0} (close : State → Reply (Unit {0}) × State) where
  -- `stopCh` is closed, and the producer is what `Close` left.
  abbrev pub ClosedProducer : Producer.Producer State → Producer.Producer State → Type 0
  ClosedProducer p q =
      (q.stopped ≡ true) × (q.topic ≡ p.topic) × (q.producer ≡ (close p.producer).1)

  pub producer_stop_again :
      (p : Producer.Producer State) → p.stopped ≡ true → Producer.stop close p ≡ (panics, p)
  unfolding Producer.stop
  producer_stop_again p h = simp h

  after_close-ClosedProducer :
      (r : Reply (Unit {0}) × State) (p : Producer.Producer State)
      → Leaves
          (λ (q : Producer.Producer State).
            (q.stopped ≡ true) × (q.topic ≡ p.topic) × (q.producer ≡ r.1))
          (Producer.after_close r p)
  unfolding Producer.after_close
  after_close-ClosedProducer (reply u, t) p = (refl, refl, refl)
  after_close-ClosedProducer (refused e, t) p = (refl, refl, refl)

  pub producer_stop-ClosedProducer :
      (p : Producer.Producer State)
      → p.stopped ≡ false
      → Leaves (ClosedProducer p) (Producer.stop close p)
  producer_stop-ClosedProducer p h =
      subst (Leaves (ClosedProducer p)) (sym (stop_first close p h))
        (after_close-ClosedProducer (close p.producer) p)

module _ (client : Client) where
  open client use {Conn, close_conn}

  -- Not connected, with the connection closed if there was one.
  abbrev pub Disconnected : Collector Conn → Collector Conn → Type 0
  Disconnected c d =
      (d.connected ≡ false)
      × (d.conn ≡ (if c.connected then (close_conn c.conn).1 else c.conn))
      × (d.device ≡ c.device)

  -- The same for each collector, under its name.
  abbrev pub AllDisconnected :
      List (String × Collector Conn) → List (String × Collector Conn) → Type 0
  AllDisconnected [] ds = ds ≡ []
  AllDisconnected (c ∷ cs) [] = ⊥
  AllDisconnected (c ∷ cs) (d ∷ ds) = (d.0 ≡ c.0) × Disconnected c.1 d.1 × AllDisconnected cs ds

  disconnect-Disconnected : (c : Collector Conn) → Disconnected c (disconnect client c)
  unfolding disconnect
  disconnect-Disconnected c = elim (Bool-cases c.connected) [
    | inl on ↦ simp on (refl, refl, refl)
    | inr off ↦ simp off (refl, refl, refl)
  ]

  pub stop_collectors-AllDisconnected :
      (cs : List (String × Collector Conn)) → AllDisconnected cs (stop_collectors client cs)
  unfolding stop_collectors
  stop_collectors-AllDisconnected [] = refl
  stop_collectors-AllDisconnected ((n, c) ∷ cs) =
      (refl, disconnect-Disconnected c, stop_collectors-AllDisconnected cs)
