-- ===== src/Server/Answers.antt =====
-- src/server/ws: what a remote reads as the answer to its message.
use integration_home_assista.Prelude.{
  ℕ, ◌≤◌, String, Option, none, some, List, ◌≡◌, inl, inr, arith, Option-cases, if_keep,
}
use mathlib.Core.Path.{subst}
use mathlib.Core.Option.{some_inj}
use integration_home_assista.Errors.{
  ServiceError, internal_server_error, serialization_error, bad_request, not_connected,
  not_yet_implemented, service_unavailable, not_found, Result, ok, err, Result-cases,
}
use integration_home_assista.Platform.{Platform}
use integration_home_assista.Api.{
  DeviceState, device, R2Request, get_driver_version, get_driver_metadata, get_device_state,
  get_entity_states, get_available_entities, subscribe_events, unsubscribe_events, entity_command,
  EntityCommand, AvailableIntgEntity, Codec,
}
use integration_home_assista.Controller.Messages.{
  Body, available_entities_data, device_state_data, WsMessage, response, event,
}
use integration_home_assista.Controller.State.{R2Session, World, Controller}
use integration_home_assista.Controller.Machine.{r2_request}
use integration_home_assista.Controller.Core.{sm_consume}
use integration_home_assista.Prelude.Dict.{lookup}
use integration_home_assista.Controller.Requests.{
  client_states_task, client_command_task, R2RequestMsg, Reply, ready, waits, Task, metadata_reply,
  reply_of_task, setup_task, stored_entities, note_request, command_client, run_request,
  running_request, session_request, request_msg, finish_request,
}
use integration_home_assista.Server.{Outgoing, message, error_message, service_error_to_ws_message}

-- An answer to the message with the id, of a driver whose device has the state.
pub data IsAnswer {p : Platform} (id : ℕ) (state : DeviceState) : Outgoing p → Type 0 where
  responds : (name : String) (body : Body p) → IsAnswer id state (message (response id name body))
  tells_state :
      (name : String) → IsAnswer id state (message (event name device (device_state_data state)))
  fails :
      (code : ℕ) (title text : String)
      → 400 ≤ code
      → code ≤ 503
      → IsAnswer id state (error_message id code title text)

-- A reply of the controller from which such an answer is made.
pub data IsReply {p : Platform} (id : ℕ) (state : DeviceState) : Reply p → Type 0 where
  no_answer : IsReply id state (ready (ok none))
  replied :
      (m : WsMessage p) → IsAnswer id state (message m) → IsReply id state (ready (ok (some m)))
  refused : (e : ServiceError) → IsReply id state (ready (err e))
  waiting : (t : Task p) (name : String) → IsReply id state (waits t id name)

pub error-IsAnswer :
    {p : Platform} (id : ℕ) (state : DeviceState) (e : ServiceError)
    → IsAnswer {p = p} id state (service_error_to_ws_message id e)
unfolding service_error_to_ws_message
error-IsAnswer id state (internal_server_error _) =
    fails 500 "ERROR" "Internal server error" (omega arith) (omega arith)
error-IsAnswer id state (serialization_error e) =
    fails 400 "BAD_REQUEST" e (omega arith) (omega arith)
error-IsAnswer id state (bad_request e) = fails 400 "BAD_REQUEST" e (omega arith) (omega arith)
error-IsAnswer id state not_connected =
    fails 503 "SERVICE_UNAVAILABLE" "HomeAssistant is not connected" (omega arith) (omega arith)
error-IsAnswer id state not_yet_implemented =
    fails 501 "NOT_IMPLEMENTED" "Not yet implemented" (omega arith) (omega arith)
error-IsAnswer id state (service_unavailable e) =
    fails 503 "SERVICE_UNAVAILABLE" e (omega arith) (omega arith)
error-IsAnswer id state (not_found e) = fails 404 "NOT_FOUND" e (omega arith) (omega arith)

module _ {p : Platform} (codec : Codec p) (w : World p) where
  metadata_reply-IsAnswer :
      (msg : R2RequestMsg p) (c : Controller p) (r : R2Request) (m : WsMessage p)
      → metadata_reply codec w msg c r ≡ some m
      → IsAnswer msg.req_id c.device_state (message m)
  unfolding metadata_reply
  metadata_reply-IsAnswer msg c get_driver_version m e =
      subst (λ x. IsAnswer msg.req_id c.device_state (message x)) (some_inj.0 e) (responds _ _)
  metadata_reply-IsAnswer msg c get_driver_metadata m e =
      subst (λ x. IsAnswer msg.req_id c.device_state (message x)) (some_inj.0 e) (responds _ _)
  metadata_reply-IsAnswer msg c get_device_state m e =
      subst (λ x. IsAnswer msg.req_id c.device_state (message x)) (some_inj.0 e) (tells_state _)
  metadata_reply-IsAnswer msg c _ m e = ground arith

  stored_entities-IsAnswer :
      (msg : R2RequestMsg p) (s : R2Session) (stored : Option (List (AvailableIntgEntity p)))
      (c : Controller p) (m : WsMessage p) (state : DeviceState)
      → (stored_entities codec w msg s stored c).0 ≡ some m
      → IsAnswer msg.req_id state (message m)
  unfolding stored_entities
  stored_entities-IsAnswer msg s none c m state = λ e. ground arith
  stored_entities-IsAnswer msg s (some entities) c m state =
      if_keep
        (λ (x : Option (WsMessage p) × Controller p).
          x.0 ≡ some m → IsAnswer msg.req_id state (message m))
        (w.r2_accepts s.recipient
          (response msg.req_id "available_entities" (available_entities_data entities)))
        (λ e. subst (λ x. IsAnswer msg.req_id state (message x)) (some_inj.0 e) (responds _ _))
        (λ e. ground arith)

  note_request-IsAnswer :
      (msg : R2RequestMsg p) (s : R2Session) (c : Controller p) (r : R2Request) (m : WsMessage p)
      (state : DeviceState)
      → (note_request codec w msg s r c).0 ≡ some m
      → IsAnswer msg.req_id state (message m)
  unfolding note_request
  note_request-IsAnswer msg s c get_available_entities m state e =
      stored_entities-IsAnswer msg s c.subscribed_entity_ids _ m state e
  note_request-IsAnswer msg s c _ m state e = ground arith

  command_client-IsReply :
      (msg : R2RequestMsg p) (client : Option ℕ) (command : Result (EntityCommand p))
      (c : Controller p) (state : DeviceState)
      → IsReply msg.req_id state (command_client codec w client command msg c).0
  unfolding command_client
  command_client-IsReply msg none command c state = no_answer
  command_client-IsReply msg (some addr) (err e) c state = refused e
  command_client-IsReply msg (some addr) (ok command) c state = waiting _ _

  run_request-IsReply :
      (msg : R2RequestMsg p) (r : R2Request) (ids : List String) (c : Controller p)
      (state : DeviceState)
      → IsReply msg.req_id state (run_request codec w msg r ids c).0
  unfolding run_request
  run_request-IsReply msg get_entity_states ids c state = elim (Option-cases c.ha_client) [
    | inl q ↦ rw (q) (refused _)
    | inr (addr, q) ↦ rw (q) (waiting _ _)
  ]
  run_request-IsReply msg get_available_entities ids c state = elim (Option-cases c.ha_client) [
    | inl q ↦ rw (q) (refused _)
    | inr (addr, q) ↦ rw (q) (waiting _ _)
  ]
  run_request-IsReply msg subscribe_events ids c state = waiting _ _
  run_request-IsReply msg unsubscribe_events ids c state = waiting _ _
  run_request-IsReply msg entity_command ids c state =
      command_client-IsReply msg c.ha_client _ c state
  run_request-IsReply msg _ ids c state = no_answer

  setup_task-IsReply :
      (msg : R2RequestMsg p) (t : Result (Task p)) (state : DeviceState)
      → IsReply msg.req_id state (reply_of_task codec w msg t)
  unfolding reply_of_task
  setup_task-IsReply msg (ok t) state = waiting _ _
  setup_task-IsReply msg (err e) state = refused e

  running_request-IsReply :
      (msg : R2RequestMsg p) (s : R2Session) (c : Controller p) (state : DeviceState)
      → IsReply msg.req_id state (running_request codec w msg s c).0
  unfolding running_request
  running_request-IsReply msg s c state =
      let consumed = sm_consume w msg.ws_id r2_request c in
      elim (Result-cases consumed.0) [
        | inr (e, q) ↦ rw (q, running_request) (refused _)
        | inl (a, q) ↦ elim (Option-cases (note_request codec w msg s msg.request consumed.1).0) [
          | inl n ↦ rw (q, n, running_request) (run_request-IsReply msg msg.request _ _ state)
          | inr (m, n) ↦
              rw (q, n, running_request)
                (replied m (note_request-IsAnswer msg s consumed.1 _ m state n))
        ]
      ]

  session_request-IsReply :
      (msg : R2RequestMsg p) (s : R2Session) (c : Controller p)
      → IsReply msg.req_id c.device_state (session_request codec w msg s c).0
  unfolding session_request
  session_request-IsReply msg s c = elim (Option-cases (metadata_reply codec w msg c msg.request)) [
    | inr (m, q) ↦ rw (q, session_request) (replied m (metadata_reply-IsAnswer msg c _ m q))
    | inl q ↦ elim (Option-cases (setup_task codec w msg msg.request)) [
      | inr (t, n) ↦ rw (q, n, session_request) (setup_task-IsReply msg t c.device_state)
      | inl n ↦ rw (q, n, session_request) (running_request-IsReply msg s c c.device_state)
    ]
  ]

  pub request_msg-IsReply :
      (msg : R2RequestMsg p) (c : Controller p)
      → IsReply msg.req_id c.device_state (request_msg codec w msg c).0
  unfolding request_msg
  request_msg-IsReply msg c = elim (Option-cases (lookup msg.ws_id c.sessions)) [
    | inl q ↦ rw (q, request_msg) (refused _)
    | inr (s, q) ↦ rw (q, request_msg) (session_request-IsReply msg s _)
  ]

-- The task of a request ends with no answer, an error or an answer with its id.
pub finish_request-IsReply :
    {p : Platform} (t : Task p) (id : ℕ) (name : String) (task : Result (Unit {0}))
    (state : DeviceState)
    → IsReply id state (ready (finish_request t id name task))
unfolding finish_request
finish_request-IsReply client_states_task id name (err e) state = refused e
finish_request-IsReply client_states_task id name (ok _) state = no_answer
finish_request-IsReply client_command_task id name (err e) state = refused e
finish_request-IsReply client_command_task id name (ok _) state = replied _ (responds _ _)
finish_request-IsReply _ id name (err e) state = refused e
finish_request-IsReply _ id name (ok _) state = replied _ (responds _ _)
