-- ===== src/Modbus/Collector/Attempts.antt =====
-- What `ensureConnected` (pkg/modbus/collector.go) does to the client.
use mbsscaner.Prelude.{ℕ, zero, suc, ◌+◌, ◌≡◌, refl, false, inl, inr, arith, Bool-cases, ap, ◌∙◌}
use mbsscaner.Modbus.Result.{
  Result, ok, err, panics, Reply, reply, refused, Error, on_error, no_attempts, reconnect_failed,
}
use mbsscaner.Modbus.Client.{Client}
use mbsscaner.Modbus.Collector.{
  Collector, connect, retry_connect, ensure_connected, after_open, after_test, after_check,
  test_connection,
}
use mbsscaner.Modbus.Collector.Connected.{Attempted, connect-Attempted}

module _ (client : Client) where
  -- The connection is as a successful test read left it.
  abbrev pub Tested : Collector client.Conn → Type 0
  Tested c' = (w : client.Conn) × (v : ℕ) × (test_connection client w ≡ (reply v, c'.conn))

  after_test-Tested :
      (w : client.Conn) (r : Reply ℕ × client.Conn) (c c' : Collector client.Conn)
      → test_connection client w ≡ r
      → after_test client r c ≡ (ok tt, c')
      → Tested c'
  unfolding after_test
  after_test-Tested w (reply v, w') c c' e h = (
    w,
    v,
    e ∙ ap (λ u. (reply v, u)) (ap (λ (x : Result (Unit {0}) × Collector client.Conn). x.1.conn) h),
  )
  after_test-Tested w (refused e, w') c c' t h = cc

  after_open-Tested :
      (r : Reply (Unit {0}) × client.Conn) (c c' : Collector client.Conn)
      → after_open client r c ≡ (ok tt, c')
      → Tested c'
  unfolding after_open
  after_open-Tested (reply u, w) c c' h = after_test-Tested w _ c c' refl h
  after_open-Tested (refused e, w) c c' h = cc

  connect-Tested :
      (c c' : Collector client.Conn)
      → c.connected ≡ false
      → connect client c ≡ (ok tt, c')
      → Tested c'
  unfolding connect
  connect-Tested c c' off h = after_open-Tested (client.open_conn c.conn) c c' (simp off at h)

  -- An attempt, and what follows a failed one.
  retry-Tested :
      (r : Result (Unit {0}) × Collector client.Conn)
      (again : Error → Collector client.Conn → Result (Unit {0}) × Collector client.Conn)
      (c c' : Collector client.Conn)
      → Attempted client c r
      → (r ≡ (ok tt, c') → Tested c')
      → ((e : Error) (d : Collector client.Conn)
          → d.connected ≡ false
          → again e d ≡ (ok tt, c')
          → Tested c')
      → on_error r again ≡ (ok tt, c')
      → Tested c'
  retry-Tested (ok u, d) again c c' a now later h = now h
  retry-Tested (err e, d) again c c' a now later h = later e d a.0 h
  retry-Tested (panics, d) again c c' a now later h = elim a [ ]

  retry_connect-Tested :
      (n : ℕ) (last : Error) (c c' : Collector client.Conn)
      → c.connected ≡ false
      → retry_connect client n last c ≡ (ok tt, c')
      → Tested c'
  unfolding retry_connect
  retry_connect-Tested zero last c c' off h = cc
  retry_connect-Tested (suc n) last c c' off h =
      retry-Tested (connect client c) (retry_connect client n) c c' (connect-Attempted client c off)
        (connect-Tested c c' off) (λ e d. retry_connect-Tested n e d c') h

  after_check-Tested :
      (w : client.Conn) (r : Reply ℕ × client.Conn) (c c' : Collector client.Conn)
      → test_connection client w ≡ r
      → after_check client r c ≡ (ok tt, c')
      → Tested c'
  unfolding after_check
  after_check-Tested w (reply v, w') c c' e h = (
    w,
    v,
    e ∙ ap (λ u. (reply v, u)) (ap (λ (x : Result (Unit {0}) × Collector client.Conn). x.1.conn) h),
  )
  after_check-Tested w (refused e, w') c c' t h =
      retry_connect-Tested c.max_retries no_attempts (record c { conn = w'; connected = false }) c'
        refl h

  -- When `ensureConnected` succeeds, the last call on the connection was a test read of holding
  -- register 0 that the device answered, whether the connection is an old or a new one.
  pub ensure_connected-Tested :
      (c c' : Collector client.Conn) → ensure_connected client c ≡ (ok tt, c') → Tested c'
  unfolding ensure_connected
  ensure_connected-Tested c c' h = elim (Bool-cases c.connected) [
    | inl on ↦ after_check-Tested c.conn _ c c' refl (simp on at h)
    | inr off ↦ retry_connect-Tested c.max_retries no_attempts c c' off (simp off at h)
  ]

  -- The client after n calls of `Open`.
  abbrev pub opens : ℕ → client.Conn → client.Conn
  opens zero w = w
  opens (suc n) w = opens n (client.open_conn w).1

  -- Every call of `Open` is refused.
  abbrev pub Unreachable : Type 0
  Unreachable = (w : client.Conn) → (e : Error) × ((client.open_conn w).0 ≡ refused e)

  after_open_refused :
      (r : Reply (Unit {0}) × client.Conn) (e : Error) (c : Collector client.Conn)
      → r.0 ≡ refused e
      → (x : Error) × (after_open client r c
          ≡ (err x, record c { conn = r.1; retry_count = c.retry_count + 1 }))
  unfolding after_open
  after_open_refused (reply u, w) e c h = cc
  after_open_refused (refused x, w) e c h = (_, refl)

  -- The collector after n refused attempts.
  abbrev pub refused_times : ℕ → Collector client.Conn → Collector client.Conn
  refused_times n c = record c { conn = opens n c.conn; retry_count = c.retry_count + n }

  connect_off :
      (c : Collector client.Conn)
      → c.connected ≡ false
      → connect client c ≡ after_open client (client.open_conn c.conn) c
  unfolding connect
  connect_off c off = simp off

  ensure_off :
      (c : Collector client.Conn)
      → c.connected ≡ false
      → ensure_connected client c ≡ retry_connect client c.max_retries no_attempts c
  unfolding ensure_connected
  ensure_off c off = simp off

  connect_refused :
      (c : Collector client.Conn)
      → Unreachable
      → c.connected ≡ false
      → (x : Error) × (connect client c ≡ (err x, refused_times 1 c))
  connect_refused c h off =
      let (e, r) = h c.conn in
      let (x, f) = after_open_refused (client.open_conn c.conn) e c r in (x, connect_off c off ∙ f)

  retry_after :
      (n : ℕ) (c c' : Collector client.Conn) (x : Error)
      (r : Result (Unit {0}) × Collector client.Conn)
      → r ≡ (err x, c')
      → (y : Error) × (retry_connect client n x c' ≡ (err y, refused_times (suc n) c))
      → (y : Error) × (on_error r (retry_connect client n) ≡ (err y, refused_times (suc n) c))
  retry_after n c c' x r e h = (h.0, rw e h.1)

  refused_times-suc :
      (n : ℕ) (c : Collector client.Conn)
      → refused_times n (refused_times 1 c) ≡ refused_times (suc n) c
  refused_times-suc n c =
      let count : c.retry_count + 1 + n ≡ c.retry_count + suc n = omega arith in
      ap (λ k. record c { conn = opens (suc n) c.conn; retry_count = k }) count

  retry_connect_refused :
      (n : ℕ) (last : Error) (c : Collector client.Conn)
      → Unreachable
      → c.connected ≡ false
      → (x : Error) × (retry_connect client n last c ≡ (err x, refused_times n c))
  unfolding retry_connect
  retry_connect_refused zero last c h off =
      let count : c.retry_count ≡ c.retry_count + 0 = omega arith in
      (_, ap (λ k. (err (reconnect_failed last), record c { retry_count = k })) count)
  retry_connect_refused (suc n) last c h off =
      let (x, e) = connect_refused c h off in
      let (y, f) = retry_connect_refused n x (refused_times 1 c) h off in
      retry_after n c (refused_times 1 c) x (connect client c) e
        (y, f ∙ ap (λ d. (err y, d)) (refused_times-suc n c))

  -- While every `Open` is refused, `ensureConnected` on a collector that is not connected ends
  -- with an error after exactly the allowed number of calls of `Open`, each of them counted, and
  -- makes no other call.
  pub ensure_connected_unreachable :
      (c : Collector client.Conn)
      → Unreachable
      → c.connected ≡ false
      → (x : Error) × (ensure_connected client c ≡ (err x, refused_times c.max_retries c))
  ensure_connected_unreachable c h off =
      let (x, e) = retry_connect_refused c.max_retries no_attempts c h off in
      (x, ensure_off c off ∙ e)
