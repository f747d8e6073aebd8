-- ===== src/Server.antt =====
-- src/server/ws: the connection of one remote. `mod.rs` checks the token, `connection.rs` is the
-- actor of the connection, and `requests.rs`, `events.rs` and `responses.rs` pass its messages on to
-- the controller. The text codec of the messages, the clock and the mailbox of the controller are
-- parameters.
pub mod Messages
pub mod Answers
pub mod Exchange
pub mod Life
pub mod Upgrade
use Prim.Native.String.{◌++◌ as join}
use integration_home_assista.Prelude.{
  ℕ, String, Bool, true, false, Option, none, some, List, [], ◌∷◌, ◌++◌, ◌-◌, ◌*◌, ltb, ◌||◌,
  str_eq, if◌then◌else◌,
}
use integration_home_assista.Json.{Value}
use integration_home_assista.Errors.{
  ServiceError, Result, ok, err, ◌>>=◌, internal_server_error, serialization_error, bad_request,
  not_connected, not_yet_implemented, service_unavailable, not_found,
}
use integration_home_assista.Platform.{Platform}
use integration_home_assista.Api.{R2Request, R2Event, R2Response, Codec}
use integration_home_assista.Settings.{HeartbeatSettings}
use integration_home_assista.Controller.Messages.{WsMessage}
use integration_home_assista.Controller.State.{World, Controller}
use integration_home_assista.Controller.Step.{
  Message, new_session_msg, session_disconnect_msg, event_msg, response_msg,
}
use integration_home_assista.Controller.Requests.{
  R2RequestMsg, Task, Reply, ready, waits, request_msg, finish_request,
}

-- `WsConn`; the address of the controller is a parameter of its handlers.
pub record WsConn : Type 0 where
  pub id : String
  pub hb : ℕ
  pub heartbeat : HeartbeatSettings
  pub msg_tracing_in : Bool
  pub msg_tracing_out : Bool

-- `WsMessage`, as it is decoded.
pub record IncomingMessage (p : Platform) : Type 0 where
  pub kind : Option String
  pub id : Option ℕ
  pub msg : Option String
  pub msg_data : Option (Value p.F64)

-- The names of the messages in `uc_api`, and the decoder of `serde`.
pub record Names (p : Platform) : Type 0 where
  pub decode : String → Option (IncomingMessage p)
  pub request_from_str : String → Option R2Request
  pub event_from_str : String → Option R2Event
  pub response_from_str : String → Option R2Response

pub data WsCloseCode : Type 0 where
  size unsupported : WsCloseCode

-- `actix_web_actors::ws::Message`, or the error in its place.
pub data Frame : Type 0 where
  text binary ping pong : String → Frame
  close continuation nop protocol_error : Frame

-- What the connection writes: its first message, a message of the controller, or `WsMessage::error`.
pub data Outgoing (p : Platform) : Type 0 where
  authentication : Outgoing p
  message : WsMessage p → Outgoing p
  error_message : ℕ → ℕ → String → String → Outgoing p

-- The effects of a handler, in their order. `text_msg` is a `TextMsg` to the actor itself.
pub data Effect (p : Platform) : Type 0 where
  write : Outgoing p → Effect p
  write_ping stop_actor : Effect p
  write_pong text_msg : String → Effect p
  write_close : WsCloseCode → String → Effect p
  to_controller : Message p → Effect p

-- `service_error_to_ws_message`
unfoldable pub service_error_to_ws_message : {p : Platform} → ℕ → ServiceError → Outgoing p
service_error_to_ws_message req_id (internal_server_error _) =
    error_message req_id 500 "ERROR" "Internal server error"
service_error_to_ws_message req_id (serialization_error e) =
    error_message req_id 400 "BAD_REQUEST" e
service_error_to_ws_message req_id (bad_request e) = error_message req_id 400 "BAD_REQUEST" e
service_error_to_ws_message req_id not_connected =
    error_message req_id 503 "SERVICE_UNAVAILABLE" "HomeAssistant is not connected"
service_error_to_ws_message req_id not_yet_implemented =
    error_message req_id 501 "NOT_IMPLEMENTED" "Not yet implemented"
service_error_to_ws_message req_id (service_unavailable e) =
    error_message req_id 503 "SERVICE_UNAVAILABLE" e
service_error_to_ws_message req_id (not_found e) = error_message req_id 404 "NOT_FOUND" e

-- `ok_or_else(|| ServiceError::BadRequest(..))`
abbrev pub required : {A : Type 0} → String → Option A → Result A
required problem none = err (bad_request problem)
required problem (some a) = ok a

module _ {p : Platform} where
  -- `WsConn::close`
  abbrev pub close_conn : WsCloseCode → String → List (Effect p)
  close_conn code description = write_close code description ∷ stop_actor ∷ []

  -- `Actor::started`, up to the answer of the controller, and with it: `false` is a mailbox error.
  unfoldable open_session : ℕ → WsConn → List (Effect p)
  open_session addr conn = write authentication ∷ to_controller (new_session_msg conn.id addr) ∷ []

  unfoldable pub registered : Bool → List (Effect p)
  registered true = []
  registered false = stop_actor ∷ []

  -- `Actor::stopping`
  unfoldable end_session : WsConn → List (Effect p)
  end_session conn = to_controller (session_disconnect_msg conn.id) ∷ []

  -- The `StreamHandler`
  unfoldable receive_frame : ℕ → Frame → WsConn → List (Effect p) × WsConn
  receive_frame now (text t) conn = (text_msg t ∷ [], conn)
  receive_frame now (binary _) conn = (close_conn size "Binary messages not supported!", conn)
  receive_frame now (ping bytes) conn = (write_pong bytes ∷ [], record conn { hb = now })
  receive_frame now (pong _) conn = ([], record conn { hb = now })
  receive_frame now close conn = (stop_actor ∷ [], conn)
  receive_frame now continuation conn = (close_conn size "Continuation frames not supported!", conn)
  receive_frame now nop conn = ([], conn)
  receive_frame now protocol_error conn = (stop_actor ∷ [], conn)

  -- The closure of `start_heartbeat`
  unfoldable send_heartbeat : ℕ → WsConn → List (Effect p)
  send_heartbeat now conn =
      if ltb (conn.heartbeat.timeout * 1000) (now - conn.hb)
      then to_controller (session_disconnect_msg conn.id) ∷ stop_actor ∷ []
      else write_ping ∷ []

-- `actix_web::error::JsonPayloadError`; `deserialize` says whether the JSON is well-formed with wrong data.
data JsonPayloadError : Type 0 where
  content_type : JsonPayloadError
  deserialize : Bool → JsonPayloadError
  other_payload_error : JsonPayloadError

-- `json_error_handler`: the status, the code and the text of the answer.
unfoldable json_error_handler : JsonPayloadError → String → ℕ × String × String
json_error_handler content_type description = (415, "UNSUPPORTED_MEDIA_TYPE", description)
json_error_handler (deserialize true) description = (400, "INVALID_JSON", description)
json_error_handler (deserialize false) description = (400, "BAD_REQUEST", description)
json_error_handler other_payload_error description = (400, "BAD_REQUEST", description)
