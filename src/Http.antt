-- ===== src/Http.antt =====
-- The handlers of pkg/http/server.go, over the `PointWriter` that is registered. Routing, the
-- decoding of a request (`ShouldBindJSON`) and the listener are the web library's; a handler is
-- given what the library bound, and a panic in it becomes the status 500 of `gin.Recovery`.
pub mod Served
pub mod Server
use mbsscaner.Prelude.{ℕ, String, str_eq, Bool, true, false, Option, none, some, if◌then◌else◌}
use mbsscaner.Modbus.Result.{Result, ok, err, panics, Error, Reply, reply, refused, M}
use mbsscaner.Modbus.Value.{Value}

-- The interface that the handlers call; `State` is what is behind it.
pub record PointWriter : Type 1 where
  pub State : Type 0
  pub write_point : String → Value → M State (Unit {0})
  pub get_point_value : String → M State Value

-- The texts of the responses.
pub data Message : Type 0 where
  nothing not_registered point_written name_required : Message
  invalid_request failed_to_write point_not_found : Error → Message

-- `WritePointResponse`.
pub record WritePointResponse : Type 0 where
  pub success : Bool
  pub message : Message
  pub data_of : Option (String × Value)

pub data Body : Type 0 where
  empty health point_list : Body
  response : WritePointResponse → Body

pub record Answer : Type 0 where
  pub status : ℕ
  pub body : Body

unfoldable pub refusal : ℕ → Message → Answer
refusal code m = record {
  status = code;
  body = response (record { success = false; message = m; data_of = none });
}

unfoldable pub success_with : Message → String → Value → Answer
success_with m name v = record {
  status = 200;
  body = response (record { success = true; message = m; data_of = some (name, v) });
}

abbrev pub recovered : Answer
recovered = record { status = 500; body = empty }

unfoldable pub handle_health : Answer
handle_health = record { status = 200; body = health }

unfoldable pub handle_list_points : Answer
handle_list_points = record { status = 200; body = point_list }

module _ (W : PointWriter) where
  open W use {State, write_point, get_point_value}

  -- `pointWriter`: nil, or a writer in some state.
  abbrev pub Registered : Type 0
  Registered = Option State

  unfoldable pub after_write : String → Value → Result (Unit {0}) × State → Answer × Registered
  unfolding refusal success_with
  after_write name v (ok _, s) = (success_with point_written name v, some s)
  after_write name v (err e, s) = (refusal 500 (failed_to_write e), some s)
  after_write name v (panics, s) = (recovered, some s)

  unfoldable pub handle_write_point : Reply (String × Value) → Registered → Answer × Registered
  unfolding refusal after_write
  handle_write_point request none = (refusal 503 not_registered, none)
  handle_write_point (refused e) (some s) = (refusal 400 (invalid_request e), some s)
  handle_write_point (reply (name, v)) (some s) = after_write name v (write_point name v s)

  unfoldable pub after_get : String → Result Value × State → Answer × Registered
  unfolding refusal success_with
  after_get name (ok v, s) = (success_with nothing name v, some s)
  after_get name (err e, s) = (refusal 404 (point_not_found e), some s)
  after_get name (panics, s) = (recovered, some s)

  unfoldable pub handle_read_point : String → Registered → Answer × Registered
  unfolding refusal after_get
  handle_read_point name none = (refusal 503 not_registered, none)
  handle_read_point name (some s) =
      if str_eq name ""
      then (refusal 400 name_required, some s)
      else after_get name (get_point_value name s)
