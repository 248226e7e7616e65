-- ===== src/Modbus/Collector/Connected.antt =====
-- The connection state of a `Collector` (pkg/modbus/collector.go).
use mbsscaner.Prelude.{
  ℕ, zero, suc, ◌+◌, ◌≡◌, refl, true, false, ◌⊎◌, inl, inr, arith, Bool-cases, ◌∙◌,
}
use mbsscaner.Modbus.Result.{
  Result, ok, err, panics, Reply, reply, refused, on_error, Error, no_attempts,
}
use mbsscaner.Modbus.Client.{Client}
use mbsscaner.Modbus.Collector.{
  Collector, connect, retry_connect, ensure_connected, after_open, after_test, after_check,
  test_connection,
}

module _ (client : Client) where
  -- An attempt either succeeds and leaves the flag set and the count at 0, or fails, leaves the
  -- flag clear and adds one to the count. The device and the limit stay.
  abbrev pub Attempted : Collector client.Conn → Result (Unit {0}) × Collector client.Conn → Type 0
  Attempted c (ok u, c') =
      (c'.connected ≡ true)
      × (c'.retry_count ≡ 0)
      × (c'.device ≡ c.device)
      × (c'.max_retries ≡ c.max_retries)
  Attempted c (err e, c') =
      (c'.connected ≡ false)
      × (c'.retry_count ≡ c.retry_count + 1)
      × (c'.device ≡ c.device)
      × (c'.max_retries ≡ c.max_retries)
  Attempted c (panics, c') = ⊥

  after_test-Attempted :
      (r : Reply ℕ × client.Conn) (c : Collector client.Conn)
      → c.connected ≡ false
      → Attempted c (after_test client r c)
  unfolding after_test
  after_test-Attempted (reply v, w) c h = (refl, refl, refl, refl)
  after_test-Attempted (refused e, w) c h = (h, refl, refl, refl)

  after_open-Attempted :
      (r : Reply (Unit {0}) × client.Conn) (c : Collector client.Conn)
      → c.connected ≡ false
      → Attempted c (after_open client r c)
  unfolding after_open
  after_open-Attempted (reply v, w) c h = after_test-Attempted (test_connection client w) c h
  after_open-Attempted (refused e, w) c h = (h, refl, refl, refl)

  pub connect-Attempted :
      (c : Collector client.Conn) → c.connected ≡ false → Attempted c (connect client c)
  unfolding connect
  connect-Attempted c h = simp h (after_open-Attempted (client.open_conn c.conn) c h)

  -- After `n` attempts, starting with the flag clear: connected with the count at 0, or not
  -- connected with every attempt counted.
  abbrev pub Retried :
      ℕ → Collector client.Conn → Result (Unit {0}) × Collector client.Conn → Type 0
  Retried n c (ok u, c') =
      (c'.connected ≡ true)
      × (c'.retry_count ≡ 0)
      × (c'.device ≡ c.device)
      × (c'.max_retries ≡ c.max_retries)
  Retried n c (err e, c') =
      (c'.connected ≡ false)
      × (c'.retry_count ≡ c.retry_count + n)
      × (c'.device ≡ c.device)
      × (c'.max_retries ≡ c.max_retries)
  Retried n c (panics, c') = ⊥

  -- A further attempt after a failed one.
  Retried-suc :
      (n : ℕ) (c d : Collector client.Conn) (r : Result (Unit {0}) × Collector client.Conn)
      → d.retry_count ≡ c.retry_count + 1
      → d.device ≡ c.device
      → d.max_retries ≡ c.max_retries
      → Retried n d r
      → Retried (suc n) c r
  Retried-suc n c d (ok u, c') e f m h = (h.0, h.1, h.2 ∙ f, h.3 ∙ m)
  Retried-suc n c d (err x, c') e f m h = (h.0, omega arith, h.2 ∙ f, h.3 ∙ m)
  Retried-suc n c d (panics, c') e f m h = h

  retry-Retried :
      (n : ℕ) (c : Collector client.Conn) (r : Result (Unit {0}) × Collector client.Conn)
      (again : Error → Collector client.Conn → Result (Unit {0}) × Collector client.Conn)
      → Attempted c r
      → ((e : Error) (d : Collector client.Conn) → d.connected ≡ false → Retried n d (again e d))
      → Retried (suc n) c (on_error r again)
  retry-Retried n c (ok u, c') again a k = a
  retry-Retried n c (err e, c') again a k = Retried-suc n c c' (again e c') a.1 a.2 a.3 (k e c' a.0)
  retry-Retried n c (panics, c') again a k = elim a [ ]

  pub retry_connect-Retried :
      (n : ℕ) (last : Error) (c : Collector client.Conn)
      → c.connected ≡ false
      → Retried n c (retry_connect client n last c)
  unfolding retry_connect
  retry_connect-Retried zero last c h = (h, omega arith, refl, refl)
  retry_connect-Retried (suc n) last c h =
      retry-Retried n c (connect client c) (retry_connect client n) (connect-Attempted c h)
        (retry_connect-Retried n)

  -- What `ensureConnected` leaves: on success the flag is set, and the count is 0 unless the
  -- connection was alive all along; on failure the flag is clear and every one of the allowed
  -- attempts has been counted. It never panics.
  abbrev pub Ensured : Collector client.Conn → Result (Unit {0}) × Collector client.Conn → Type 0
  Ensured c (ok u, c') =
      (c'.connected ≡ true)
      × (c'.device ≡ c.device)
      × ((c'.retry_count ≡ 0) ⊎ ((c.connected ≡ true) × (c'.retry_count ≡ c.retry_count)))
  Ensured c (err e, c') =
      (c'.connected ≡ false)
      × (c'.device ≡ c.device)
      × (c'.retry_count ≡ c.retry_count + c.max_retries)
  Ensured c (panics, c') = ⊥

  Ensured-of_Retried :
      (c d : Collector client.Conn) (r : Result (Unit {0}) × Collector client.Conn)
      → d.retry_count ≡ c.retry_count
      → d.device ≡ c.device
      → Retried c.max_retries d r
      → Ensured c r
  Ensured-of_Retried c d (ok u, c') e f h = (h.0, h.2 ∙ f, inl h.1)
  Ensured-of_Retried c d (err x, c') e f h = (h.0, h.2 ∙ f, omega arith)
  Ensured-of_Retried c d (panics, c') e f h = h

  after_check-Ensured :
      (r : Reply ℕ × client.Conn) (c : Collector client.Conn)
      → c.connected ≡ true
      → Ensured c (after_check client r c)
  unfolding after_check
  after_check-Ensured (reply v, w) c h = (h, refl, inr (h, refl))
  after_check-Ensured (refused e, w) c h =
      Ensured-of_Retried c (record c { conn = w; connected = false }) _ refl refl
        (retry_connect-Retried c.max_retries no_attempts (record c { conn = w; connected = false })
          refl)

  -- `ensureConnected` returns without an error exactly when the collector is left connected. On
  -- success the retry count is 0, or as before if the connection had not been lost; on failure all
  -- allowed attempts were made and counted. The device stays, and there is no panic.
  pub ensure_connected-Ensured : (c : Collector client.Conn) → Ensured c (ensure_connected client c)
  unfolding ensure_connected
  ensure_connected-Ensured c = elim (Bool-cases c.connected) [
    | inl on ↦ simp on (after_check-Ensured (test_connection client c.conn) c on)
    | inr off ↦
        simp off (
          Ensured-of_Retried c c _ refl refl
            (retry_connect-Retried c.max_retries no_attempts c off))
  ]
