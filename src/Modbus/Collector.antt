-- ===== src/Modbus/Collector.antt =====
-- The connection of a `Collector` (pkg/modbus/collector.go): `Connect`, `Disconnect`, `Reconnect`
-- and `ensureConnected`. Left out are the log lines, the pause between two attempts, `lastConnect`,
-- which only the statistics read, and the locks: each operation is one step. `retryCount` is an
-- `int` that would wrap after 2 ^ 63 failures; it is unbounded here.
pub mod Connected
pub mod Attempts
pub mod Shared
use mbsscaner.Prelude.{ℕ, zero, suc, ◌+◌, Bool, true, false, if◌then◌else◌, not}
use mbsscaner.Config.Types.{ModbusDevice}
use mbsscaner.Modbus.Result.{
  Result, ok, err, panics, Reply, reply, refused, Error, M, ◌>>=◌, no_attempts, open_failed,
  connection_test_failed, reconnect_failed, return, fail, recover,
}
use mbsscaner.Modbus.Client.{Client, holding}

pub record Collector (Conn : Type 0) : Type 0 where
  pub conn : Conn
  pub device : ModbusDevice
  pub connected : Bool
  pub retry_count : ℕ
  pub max_retries : ℕ

module _ (client : Client) where
  open client use {Conn, open_conn, close_conn, read_register}

  -- The struct that `NewCollector` builds before it connects.
  unfoldable pub fresh_collector : Conn → ModbusDevice → Collector Conn
  fresh_collector w d = record {
    conn = w;
    device = d;
    connected = false;
    retry_count = 0;
    max_retries = 3;
  }

  -- `testConnection` reads holding register 0.
  unfoldable pub test_connection : Conn → Reply ℕ × Conn
  test_connection w = read_register 0 holding w

  -- What `Connect` does after the test of the new connection.
  unfoldable pub after_test : Reply ℕ × Conn → Collector Conn → Result (Unit {0}) × Collector Conn
  after_test (reply _, w) c = (ok tt, record c { conn = w; connected = true; retry_count = 0 })
  after_test (refused e, w) c = (
    err (connection_test_failed e),
    record c { conn = (close_conn w).1; retry_count = c.retry_count + 1 },
  )

  -- What `Connect` does after `client.Open()`.
  unfoldable pub after_open :
      Reply (Unit {0}) × Conn → Collector Conn → Result (Unit {0}) × Collector Conn
  unfolding after_test test_connection
  after_open (reply _, w) c = after_test (test_connection w) c
  after_open (refused e, w) c =
      (err (open_failed e), record c { conn = w; retry_count = c.retry_count + 1 })

  unfoldable pub connect : M (Collector Conn) (Unit {0})
  unfolding after_open
  connect c = if c.connected then (ok tt, c) else after_open (open_conn c.conn) c

  -- An error of `Close` is only logged.
  unfoldable pub disconnect : Collector Conn → Collector Conn
  disconnect c =
      if not c.connected then c else record c { conn = (close_conn c.conn).1; connected = false }

  unfoldable pub reconnect : M (Collector Conn) (Unit {0})
  unfolding disconnect connect
  reconnect c = connect (disconnect c)

  -- The loop of `ensureConnected`, with the attempts that are left and the last error.
  unfoldable pub retry_connect : ℕ → Error → M (Collector Conn) (Unit {0})
  unfolding connect
  retry_connect zero last = fail (reconnect_failed last)
  retry_connect (suc n) last = recover connect λ e. retry_connect n e

  -- What `ensureConnected` does after the test of a connection that looks alive. A failed test
  -- clears the flag and leaves the client as it is.
  unfoldable pub after_check : Reply ℕ × Conn → M (Collector Conn) (Unit {0})
  unfolding retry_connect
  after_check (reply _, w) c = (ok tt, record c { conn = w })
  after_check (refused e, w) c =
      retry_connect c.max_retries no_attempts (record c { conn = w; connected = false })

  unfoldable pub ensure_connected : M (Collector Conn) (Unit {0})
  unfolding after_check test_connection retry_connect
  ensure_connected c =
      if c.connected
      then after_check (test_connection c.conn) c
      else retry_connect c.max_retries no_attempts c
