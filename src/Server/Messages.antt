-- ===== src/Server/Messages.antt =====
-- src/server/ws: how a text message of a remote is handled, in `connection.rs`, `requests.rs`,
-- `events.rs` and `responses.rs`.
use Prim.Native.String.{◌++◌ as join}
use integration_home_assista.Prelude.{
  ℕ, String, Bool, Option, none, some, List, [], ◌∷◌, ◌++◌, str_eq, if◌then◌else◌,
}
use integration_home_assista.Errors.{Result, ok, err, ◌>>=◌, bad_request}
use integration_home_assista.Platform.{Platform}
use integration_home_assista.Api.{Codec}
use integration_home_assista.Controller.Messages.{WsMessage}
use integration_home_assista.Controller.State.{World, Controller}
use integration_home_assista.Controller.Step.{Message, event_msg, response_msg}
use integration_home_assista.Controller.Requests.{
  R2RequestMsg, Reply, ready, waits, request_msg, finish_request,
}
use integration_home_assista.Server.{
  IncomingMessage, Names, Outgoing, message, Effect, write, to_controller, unsupported, required,
  service_error_to_ws_message, close_conn,
}

-- What becomes of a decoded message: a message for the controller whose answer the future waits for,
-- or the result at once, with a message that was put into the mailbox of the controller.
pub data Handling (p : Platform) : Type 0 where
  asks : R2RequestMsg p → Handling p
  answers : Result (Option (WsMessage p)) → List (Effect p) → Handling p

module _ {p : Platform} (names : Names p) where
  -- `WsConn::on_request`, up to the answer of the controller.
  unfoldable pub on_request_msg : String → IncomingMessage p → Result (R2RequestMsg p)
  on_request_msg session_id m = do
    id ← required "Missing property: id" m.id
    msg ← required "Missing property: msg" m.msg
    elim (names.request_from_str msg) [
      | none ↦ err (bad_request (join "Unknown message: " msg))
      | some r ↦ ok (record { ws_id = session_id; req_id = id; request = r; msg_data = m.msg_data })
    ]

  -- `WsConn::on_event` and `WsConn::on_response`; `try_send` to a full mailbox is only logged.
  unfoldable pub on_event_msg :
      (Message p → Bool) → String → IncomingMessage p → Result (List (Effect p))
  on_event_msg accepts session_id m = do
    msg ← required "Missing property: msg" m.msg
    elim (names.event_from_str msg) [
      | none ↦ ok []
      | some e ↦
          let sent = event_msg session_id e in
          ok (if accepts sent then to_controller sent ∷ [] else [])
    ]

  unfoldable pub on_response_msg : (Message p → Bool) → IncomingMessage p → Result (List (Effect p))
  on_response_msg accepts m = do
    msg ← required "Missing property: msg" m.msg
    elim (names.response_from_str msg) [
      | none ↦ ok []
      | some r ↦
          let sent = response_msg r m.msg_data in
          ok (if accepts sent then to_controller sent ∷ [] else [])
    ]

  abbrev pub asked : Result (R2RequestMsg p) → Handling p
  asked (err e) = answers (err e) []
  asked (ok r) = asks r

  abbrev pub passed_on : Result (List (Effect p)) → Handling p
  passed_on (err e) = answers (err e) []
  passed_on (ok sent) = answers (ok none) sent

  -- The future of `Handler<TextMsg>`
  unfoldable pub handle_decoded : (Message p → Bool) → String → IncomingMessage p → Handling p
  handle_decoded accepts session_id m = elim m.kind [
    | none ↦ answers (err (bad_request "Missing property: kind")) []
    | some k ↦
        if str_eq k "req"
        then asked (on_request_msg session_id m)
        else if str_eq k "resp"
        then passed_on (on_response_msg accepts m)
        else if str_eq k "event"
        then passed_on (on_event_msg accepts session_id m)
        else answers (err (bad_request (join "Unsupported message kind: " k))) []
  ]

-- `msg.id.unwrap_or_default()`
abbrev pub id_or_default : Option ℕ → ℕ
id_or_default none = 0
id_or_default (some id) = id

module _ {p : Platform} where
  -- What the end of the future writes.
  unfoldable pub answer : ℕ → Result (Option (WsMessage p)) → Option (Outgoing p)
  answer req_id (ok (some m)) = some (message m)
  answer req_id (ok none) = none
  answer req_id (err e) = some (service_error_to_ws_message req_id e)

  -- The result of the future of a request, once the task that it waits for has its answer.
  unfoldable pub reply_result : Reply p → Result (Unit {0}) → Result (Option (WsMessage p))
  reply_result (ready r) task = r
  reply_result (waits t req_id name) task = finish_request t req_id name task

module _ {p : Platform} (codec : Codec p) (w : World p) (names : Names p) where
  -- The end of `Handler<TextMsg>` for the message with the id, with the handler of the controller and
  -- the answer to its task.
  unfoldable pub end_handling :
      ℕ
      → Handling p
      → Result (Unit {0})
      → Controller p
      → Option (Outgoing p) × List (Effect p) × Controller p
  end_handling id (answers r sent) task c = (answer id r, sent, c)
  end_handling id (asks r) task c =
      let (reply, c') = request_msg codec w r c in (answer id (reply_result reply task), [], c')

  -- `Handler<TextMsg>` for a message that is decoded.
  unfoldable pub exchange :
      (Message p → Bool)
      → String
      → IncomingMessage p
      → Result (Unit {0})
      → Controller p
      → Option (Outgoing p) × List (Effect p) × Controller p
  exchange accepts session_id m task c =
      end_handling (id_or_default m.id) (handle_decoded names accepts session_id m) task c

  -- `Handler<TextMsg>`, with its decoder.
  unfoldable handle_text :
      (Message p → Bool)
      → String
      → String
      → Result (Unit {0})
      → Controller p
      → List (Effect p) × Controller p
  handle_text accepts session_id t task c = elim (names.decode t) [
    | none ↦ (close_conn unsupported "Invalid JSON message", c)
    | some m ↦
        let (out, sent, c') = exchange accepts session_id m task c in
        elim out [ none ↦ (sent, c') | some o ↦ (sent ++ write o ∷ [], c') ]
  ]
