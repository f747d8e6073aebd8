-- ===== src/Controller/Requests/Gate.antt =====
-- Which requests depend on the operation mode.
use integration_home_assista.Prelude.{Bool, true, false, ◌≡◌, ◌≢◌, some, arith}
use integration_home_assista.Prelude.Dict.{lookup, modify}
use integration_home_assista.Platform.{Platform}
use integration_home_assista.Errors.{err, service_unavailable}
use integration_home_assista.Api.{
  Codec, R2Request, get_entity_states, get_available_entities, subscribe_events, unsubscribe_events,
  entity_command,
}
use integration_home_assista.Controller.Machine.{OperationModeState, running, transition}
use integration_home_assista.Controller.State.{World, Controller, R2Session}
use integration_home_assista.Controller.Core.{sm_consume}
use integration_home_assista.Controller.Sessions.{set_standby}
use integration_home_assista.Controller.Requests.{
  R2RequestMsg, ready, metadata_reply, setup_task, running_request, session_request, request_msg,
}

-- The requests about entities.
abbrev pub needs_running : R2Request → Bool
needs_running get_entity_states = true
needs_running get_available_entities = true
needs_running subscribe_events = true
needs_running unsubscribe_events = true
needs_running entity_command = true
needs_running _ = false

module _ {p : Platform} (codec : Codec p) (w : World p) where
  -- Outside normal operation, a request about entities from a known session is refused with
  -- "service unavailable", and only wakes the session.
  pub request_msg_refused :
      (msg : R2RequestMsg p) (s : R2Session) (c : Controller p)
      → needs_running msg.request ≡ true
      → c.machine ≢ running
      → lookup msg.ws_id c.sessions ≡ some s
      → request_msg codec w msg c ≡ (
        ready (err (service_unavailable "Request cannot be handled: setup required")),
        record c { sessions = modify msg.ws_id (set_standby false) c.sessions },
      )
  unfolding request_msg session_request metadata_reply setup_task running_request sm_consume
      transition
  request_msg_refused msg s c h k e = ground arith

  -- Every other request is answered in the same way in all operation modes.
  pub request_msg_any_mode :
      (msg : R2RequestMsg p) (m : OperationModeState) (c : Controller p)
      → needs_running msg.request ≡ false
      → (request_msg codec w msg (record c { machine = m })).0 ≡ (request_msg codec w msg c).0
  unfolding request_msg session_request metadata_reply setup_task
  request_msg_any_mode msg m c h = ground arith
