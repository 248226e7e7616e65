-- ===== src/Http/Server.antt =====
-- `NewServer`, `Start`, `setupRoutes` and `Stop` of pkg/http/server.go. The listener, which runs in
-- a goroutine of its own, and its `Close` are parameters' work: a server that was started is a
-- state of the listener. `wg` is left out.
use mbsscaner.Prelude.{
  String, str_eq, List, [], ◌∷◌, Bool, true, false, Option, none, some, if◌then◌else◌,
}
use mbsscaner.Modbus.Result.{Result, ok, err, panics, Reply, reply, refused, M}

pub data Method : Type 0 where
  get post : Method

pub data Handler : Type 0 where
  health write_point read_point list_points : Handler

pub record Route : Type 0 where
  pub method : Method
  pub path : String
  pub handler : Handler

-- `stopped` is whether `stopCh` is closed; `listener` is nil before `Start`.
pub record Server (Listener : Type 0) : Type 0 where
  pub addr : String
  pub listener : Option Listener
  pub stopped : Bool

-- The group of routes has the prefix `/api/v1`.
unfoldable pub setup_routes : List Route
setup_routes =
    record { method = get; path = "/health"; handler = health }
    ∷ record { method = post; path = "/api/v1/write-point"; handler = write_point }
    ∷ record { method = get; path = "/api/v1/read-point/:name"; handler = read_point }
    ∷ record { method = get; path = "/api/v1/points"; handler = list_points }
    ∷ []

module _ {Listener : Type 0} where
  unfoldable pub new_server : String → Server Listener
  new_server addr = record {
    addr = if str_eq addr "" then ":8080" else addr;
    listener = none;
    stopped = false;
  }

  -- An error of the listener comes later, and is only logged.
  unfoldable pub start : (String → List Route → Listener) → M (Server Listener) (Unit {0})
  unfolding setup_routes
  start listen s = (ok tt, record s { listener = some (listen s.addr setup_routes) })

  unfoldable pub after_close :
      Reply (Unit {0}) × Listener → Server Listener → Result (Unit {0}) × Server Listener
  after_close (reply u, l) s = (ok tt, record s { listener = some l; stopped = true })
  after_close (refused e, l) s = (err e, record s { listener = some l; stopped = true })

  unfoldable pub close_listener :
      (Listener → Reply (Unit {0}) × Listener) → Option Listener → M (Server Listener) (Unit {0})
  unfolding after_close
  close_listener close none s = (ok tt, record s { stopped = true })
  close_listener close (some l) s = after_close (close l) s

  -- Closing a channel that is closed panics.
  unfoldable pub stop : (Listener → Reply (Unit {0}) × Listener) → M (Server Listener) (Unit {0})
  unfolding close_listener
  stop close s = if s.stopped then (panics, s) else close_listener close s.listener s
