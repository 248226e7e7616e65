-- ===== src/Modbus/Collector/Shared.antt =====
-- A `Collector` (pkg/modbus/collector.go) that several goroutines use at once: the collecting
-- goroutine of its device, the HTTP handlers, and the goroutine that stops the service. A user goes
-- through `ensureConnected`, which holds no lock between its parts, and then works on the client
-- under `opMutex`; `Connect` and `Disconnect` hold `stateMutex` throughout, `testConnection` holds
-- no lock. A step ends before each lock and before each call of the client, which serves one call at
-- a time: between the `Open`, the test read and the `Close` of a `Connect`, the test reads of other
-- goroutines and the calls under `opMutex` may come in. What follows a call, up to the next call or
-- the unlock, only writes fields that `stateMutex` guards, and belongs to its step. `Disconnect` of
-- a collector that is not connected changes nothing; `Reconnect`, which nothing calls, is left out.
pub mod Consistent
pub mod Safe
use mbsscaner.Prelude.{
  ℕ, zero, suc, ◌+◌, ◌≡◌, Bool, true, false, Option, none, some, ◌==◌, if◌then◌else◌,
}
use mbsscaner.Modbus.Result.{
  reply, refused, Error, no_attempts, open_failed, connection_test_failed,
}
use mbsscaner.Modbus.Client.{Client}
use mbsscaner.Modbus.Collector.{Collector, test_connection}

-- Where a goroutine stands: outside the collector; before the test of a connection that looks
-- alive; after a test that failed; behind `ensureConnected`, before `opMutex`; with `opMutex` held;
-- in `Disconnect`, before `Close`. In the loop, with the attempts that are left: between two calls
-- of `Connect`, with the last error; in `Connect`, before `Open`, before the test, and before `Close`
-- with the error of the test.
pub data Phase : Type 0 where
  idle checking lost ensured working stopping : Phase
  opening testing : ℕ → Phase
  retrying closing : ℕ → Error → Phase

-- The collector, the goroutines that hold `opMutex` and `stateMutex`, and where each one stands.
pub record Shared (Conn : Type 0) : Type 0 where
  pub collector : Collector Conn
  pub holder : Option ℕ
  pub state_holder : Option ℕ
  pub phase : ℕ → Phase

unfoldable pub set_phase : ℕ → Phase → (ℕ → Phase) → ℕ → Phase
set_phase i p phase j = if i == j then p else phase j

abbrev pub goto : {Conn : Type 0} → ℕ → Phase → Shared Conn → Shared Conn
goto i p s = record s { phase = set_phase i p s.phase }

module _ (client : Client) where
  open client use {Conn, open_conn, close_conn}

  pub data Step : Shared Conn → Shared Conn → Type 0 where
    -- `if c.IsConnected()`, on both branches.
    looks_alive :
        (i : ℕ) (s : Shared Conn)
        → s.phase i ≡ idle
        → s.state_holder ≡ none
        → s.collector.connected ≡ true
        → Step s (goto i checking s)
    looks_lost :
        (i : ℕ) (s : Shared Conn)
        → s.phase i ≡ idle
        → s.state_holder ≡ none
        → s.collector.connected ≡ false
        → Step s (goto i (retrying s.collector.max_retries no_attempts) s)
    -- `testConnection`, without a lock.
    alive :
        (i : ℕ) (s : Shared Conn) (v : ℕ) (w : Conn)
        → s.phase i ≡ checking
        → test_connection client s.collector.conn ≡ (reply v, w)
        → Step s (goto i ensured (record s { collector = record s.collector { conn = w } }))
    dead :
        (i : ℕ) (s : Shared Conn) (e : Error) (w : Conn)
        → s.phase i ≡ checking
        → test_connection client s.collector.conn ≡ (refused e, w)
        → Step s (goto i lost (record s { collector = record s.collector { conn = w } }))
    -- `c.connected = false`, under `stateMutex`.
    mark_lost :
        (i : ℕ) (s : Shared Conn)
        → s.phase i ≡ lost
        → s.state_holder ≡ none
        → Step s (
            goto i
              (retrying s.collector.max_retries no_attempts)
              (record s { collector = record s.collector { connected = false } }))
    -- The loop: `Connect` takes `stateMutex` and looks at the flag.
    already :
        (i n : ℕ) (last : Error) (s : Shared Conn)
        → s.phase i ≡ retrying (suc n) last
        → s.state_holder ≡ none
        → s.collector.connected ≡ true
        → Step s (goto i ensured s)
    enter :
        (i n : ℕ) (last : Error) (s : Shared Conn)
        → s.phase i ≡ retrying (suc n) last
        → s.state_holder ≡ none
        → s.collector.connected ≡ false
        → Step s (goto i (opening n) (record s { state_holder = some i }))
    -- `Open`.
    opens :
        (i n : ℕ) (s : Shared Conn) (w : Conn)
        → s.phase i ≡ opening n
        → open_conn s.collector.conn ≡ (reply tt, w)
        → Step s (goto i (testing n) (record s { collector = record s.collector { conn = w } }))
    open_refused :
        (i n : ℕ) (s : Shared Conn) (e : Error) (w : Conn)
        → s.phase i ≡ opening n
        → open_conn s.collector.conn ≡ (refused e, w)
        → Step s (
            goto i (retrying n (open_failed e)) (record s {
              collector = record s.collector {
                conn = w;
                retry_count = s.collector.retry_count + 1;
              };
              state_holder = none;
            }))
    -- The test of the new connection.
    test_passes :
        (i n : ℕ) (s : Shared Conn) (v : ℕ) (w : Conn)
        → s.phase i ≡ testing n
        → test_connection client s.collector.conn ≡ (reply v, w)
        → Step s (
            goto i ensured (record s {
              collector = record s.collector { conn = w; connected = true; retry_count = 0 };
              state_holder = none;
            }))
    test_fails :
        (i n : ℕ) (s : Shared Conn) (e : Error) (w : Conn)
        → s.phase i ≡ testing n
        → test_connection client s.collector.conn ≡ (refused e, w)
        → Step s (goto i (closing n e) (record s { collector = record s.collector { conn = w } }))
    closes :
        (i n : ℕ) (s : Shared Conn) (e : Error)
        → s.phase i ≡ closing n e
        → Step s (
            goto i (retrying n (connection_test_failed e)) (record s {
              collector = record s.collector {
                conn = (close_conn s.collector.conn).1;
                retry_count = s.collector.retry_count + 1;
              };
              state_holder = none;
            }))
    -- The end of the loop.
    give_up :
        (i : ℕ) (last : Error) (s : Shared Conn)
        → s.phase i ≡ retrying zero last
        → Step s (goto i idle s)
    -- `c.opMutex.Lock()`, a call of the client, and `c.opMutex.Unlock()`.
    acquire :
        (i : ℕ) (s : Shared Conn)
        → s.phase i ≡ ensured
        → s.holder ≡ none
        → Step s (goto i working (record s { holder = some i }))
    use_client :
        (i : ℕ) (s : Shared Conn) (call : Conn → Conn)
        → s.phase i ≡ working
        → Step s (record s { collector = record s.collector { conn = call s.collector.conn } })
    release :
        (i : ℕ) (s : Shared Conn)
        → s.phase i ≡ working
        → Step s (goto i idle (record s { holder = none }))
    -- `Disconnect`, from `Stop`: it takes `stateMutex`, and closes a connected client.
    stop_enters :
        (i : ℕ) (s : Shared Conn)
        → s.phase i ≡ idle
        → s.state_holder ≡ none
        → s.collector.connected ≡ true
        → Step s (goto i stopping (record s { state_holder = some i }))
    stop_closes :
        (i : ℕ) (s : Shared Conn)
        → s.phase i ≡ stopping
        → Step s (
            goto i idle (record s {
              collector = record s.collector {
                conn = (close_conn s.collector.conn).1;
                connected = false;
              };
              state_holder = none;
            }))

  pub data Reach (s : Shared Conn) : Shared Conn → Type 0 where
    here : Reach s s
    next : {t u : Shared Conn} → Reach s t → Step t u → Reach s u

-- A collector before any goroutine uses it.
abbrev pub unused : {Conn : Type 0} → Collector Conn → Shared Conn
unused c = record { collector = c; holder = none; state_holder = none; phase = λ _. idle }
