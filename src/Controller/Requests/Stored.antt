-- ===== src/Controller/Requests/Stored.antt =====
-- The request for the available entities, where the client has pushed them before.
use integration_home_assista.Prelude.{true, List, ◌∷◌, ◌≡◌, none, some, arith}
use integration_home_assista.Prelude.Dict.{lookup}
use integration_home_assista.Platform.{Platform}
use integration_home_assista.Errors.{ok, err, not_connected}
use integration_home_assista.Api.{
  Codec, get_available_entities, get_entity_states, entity_command, AvailableIntgEntity,
}
use integration_home_assista.Controller.Machine.{running, transition}
use integration_home_assista.Controller.Messages.{response, available_entities_data, to_r2}
use integration_home_assista.Controller.State.{World, Controller, R2Session}
use integration_home_assista.Controller.Core.{sm_consume}
use integration_home_assista.Controller.Requests.{
  R2RequestMsg, ready, metadata_reply, setup_task, note_request, stored_entities, running_request,
  session_request, request_msg, run_request, command_client,
}

module _ {p : Platform} (codec : Codec p) (w : World p) where
  -- In normal operation, for a known session that accepts the message, with a stored list of
  -- entities: the answer to the request for the available entities is sent to the remote by the
  -- controller, and the same answer is what the request returns to the connection. The stored list
  -- is then used up.
  pub request_msg_stored :
      (msg : R2RequestMsg p) (s : R2Session) (es : List (AvailableIntgEntity p)) (c : Controller p)
      → msg.request ≡ get_available_entities
      → c.machine ≡ running
      → lookup msg.ws_id c.sessions ≡ some s
      → c.subscribed_entity_ids ≡ some es
      → let m = response msg.req_id "available_entities" (available_entities_data es) in
        let (r, d) = request_msg codec w msg c in
        w.r2_accepts s.recipient m ≡ true
        → (r ≡ ready (ok (some m)))
          × (d.sent ≡ to_r2 s.recipient m ∷ c.sent)
          × (d.subscribed_entity_ids ≡ none)
  unfolding request_msg session_request metadata_reply setup_task running_request sm_consume
      transition note_request stored_entities
  request_msg_stored msg s es c k m e q a = ground arith

  -- In normal operation, for a known session, without a client and without a stored list, the
  -- requests for the available entities and for the states are refused with "not connected", while
  -- the future of an entity command ends with no answer at all.
  pub request_msg_no_client :
      (msg : R2RequestMsg p) (s : R2Session) (c : Controller p)
      → c.machine ≡ running
      → c.ha_client ≡ none
      → c.subscribed_entity_ids ≡ none
      → lookup msg.ws_id c.sessions ≡ some s
      → ((msg.request ≡ get_available_entities
          → (request_msg codec w msg c).0 ≡ ready (err not_connected)))
        × (msg.request ≡ get_entity_states
            → (request_msg codec w msg c).0 ≡ ready (err not_connected))
        × (msg.request ≡ entity_command → (request_msg codec w msg c).0 ≡ ready (ok none))
  unfolding request_msg session_request metadata_reply setup_task running_request sm_consume
      transition note_request stored_entities run_request command_client
  request_msg_no_client msg s c m h q e = ground arith
