-- ===== src/Controller/Requests.antt =====
-- src/controller/handler/r2_request.rs: the requests of a remote. The handler answers at once, or its
-- future waits for the answer of the controller itself or of the Home Assistant client.
pub mod Gate
pub mod Stored
use integration_home_assista.Prelude.{
  ℕ, String, Bool, true, false, Option, none, some, List, [], if◌then◌else◌,
}
use integration_home_assista.Prelude.Dict.{Dict, lookup, modify}
use integration_home_assista.Json.{Value}
use integration_home_assista.Errors.{
  Result, ok, err, ◌>>=◌, not_found, service_unavailable, not_connected,
}
use integration_home_assista.Platform.{Platform}
use integration_home_assista.Api.{
  R2Request, get_driver_version, get_driver_metadata, get_device_state, setup_driver,
  set_driver_user_data, get_entity_states, get_available_entities, subscribe_events,
  unsubscribe_events, entity_command, SetupDriver, IntegrationSetup, EntityCommand,
  AvailableIntgEntity, device, Codec, deserialize,
}
use integration_home_assista.Controller.Machine.{r2_request}
use integration_home_assista.Controller.Messages
use integration_home_assista.Controller.Messages.{
  Body, no_data, driver_version, driver_metadata, device_state_data, available_entities_data,
  result_data, WsMessage, response, event, HaMsg, get_states, call_service, to_r2, to_ha,
}
use integration_home_assista.Controller.State.{R2Session, World, Controller, emit}
use integration_home_assista.Controller.Core.{sm_consume}
use integration_home_assista.Controller.Sessions.{set_standby}

-- `R2RequestMsg`
pub record R2RequestMsg (p : Platform) : Type 0 where
  pub ws_id : String
  pub req_id : ℕ
  pub request : R2Request
  pub msg_data : Option (Value p.F64)

-- What the future of a request waits for: the controller's own handler of the inner message, or
-- the client's handler of a message that was sent to it.
pub data Task (p : Platform) : Type 0 where
  setup_driver_task : String → SetupDriver → Task p
  user_data_task : String → IntegrationSetup → Task p
  subscribe_task unsubscribe_task : String → Option (Value p.F64) → Task p
  client_states_task client_command_task : Task p

-- The future: ready with the reply, or waiting, with the acknowledgement to be sent.
pub data Reply (p : Platform) : Type 0 where
  ready : Result (Option (WsMessage p)) → Reply p
  waits : Task p → ℕ → String → Reply p

abbrev pub set_entities_id : Option ℕ → R2Session → R2Session
set_entities_id id s = record s { get_available_entities_id = id }

abbrev pub set_states_id : Option ℕ → R2Session → R2Session
set_states_id id s = record s { get_entity_states_id = id }

module _ {p : Platform} (codec : Codec p) (w : World p) where
  -- The requests that are answered in every state.
  unfoldable pub metadata_reply : R2RequestMsg p → Controller p → R2Request → Option (WsMessage p)
  metadata_reply msg c get_driver_version = some (
      response msg.req_id (codec.message_name msg.request)
        (driver_version codec.driver_name codec.api_version codec.app_version))
  metadata_reply msg c get_driver_metadata =
      some (response msg.req_id (codec.message_name msg.request) (driver_metadata c.drv_metadata))
  metadata_reply msg c get_device_state =
      some (event (codec.message_name msg.request) device (device_state_data c.device_state))
  metadata_reply msg c _ = none

  unfoldable pub setup_task : R2RequestMsg p → R2Request → Option (Result (Task p))
  setup_task msg setup_driver = some (do
    data_ ← deserialize codec.setup_driver_data msg.msg_data
    ok (setup_driver_task msg.ws_id data_))
  setup_task msg set_driver_user_data = some (do
    data_ ← deserialize codec.setup_user_data msg.msg_data
    ok (user_data_task msg.ws_id data_))
  setup_task msg _ = none

  unfoldable pub reply_of_task : R2RequestMsg p → Result (Task p) → Reply p
  reply_of_task msg (ok t) = waits t msg.req_id (codec.message_name msg.request)
  reply_of_task msg (err e) = ready (err e)

  -- A pushed list that is stored is sent to the remote, and returned as the reply as well.
  unfoldable pub stored_entities :
      R2RequestMsg p
      → R2Session
      → Option (List (AvailableIntgEntity p))
      → Controller p
      → Option (WsMessage p) × Controller p
  stored_entities msg s none c = (none, c)
  stored_entities msg s (some entities) c =
      let m = response msg.req_id "available_entities" (available_entities_data entities) in
      if w.r2_accepts s.recipient m
      then (
        some m,
        emit (to_r2 s.recipient m) (record c {
          sessions = modify msg.ws_id (set_entities_id none) c.sessions;
          subscribed_entity_ids = none;
        }),
      )
      else (none, c)

  -- Notes the request id in the session; `some` is an answer that needs no client. The list is the
  -- set of entities whose states are requested.
  unfoldable pub note_request :
      R2RequestMsg p
      → R2Session
      → R2Request
      → Controller p
      → Option (WsMessage p) × List String × Controller p
  note_request msg s get_available_entities c₀ =
      let c = record c₀ {
        sessions = modify msg.ws_id (set_entities_id (some msg.req_id)) c₀.sessions;
      } in
      let (m, c') = stored_entities msg s c.subscribed_entity_ids c in (m, [], c')
  note_request msg s get_entity_states c = (
    none,
    s.subscribed_entities,
    record c { sessions = modify msg.ws_id (set_states_id (some msg.req_id)) c.sessions },
  )
  note_request msg s _ c = (none, [], c)

  abbrev ask_client :
      Option ℕ → HaMsg p → Task p → R2RequestMsg p → Controller p → Reply p × Controller p
  ask_client none m t msg c = (ready (err not_connected), c)
  ask_client (some addr) m t msg c =
      (waits t msg.req_id (codec.message_name msg.request), emit (to_ha addr m) c)

  unfoldable pub command_client :
      Option ℕ → Result (EntityCommand p) → R2RequestMsg p → Controller p → Reply p × Controller p
  command_client none command msg c = (ready (ok none), c)
  command_client (some addr) (err e) msg c = (ready (err e), c)
  command_client (some addr) (ok command) msg c =
      ask_client (some addr) (call_service command) client_command_task msg c

  -- The future of a request that the driver handles in the mode `Running`.
  unfoldable pub run_request :
      R2RequestMsg p → R2Request → List String → Controller p → Reply p × Controller p
  run_request msg get_entity_states ids c =
      ask_client c.ha_client (get_states c.remote_id ids) client_states_task msg c
  run_request msg get_available_entities ids c =
      ask_client c.ha_client (Messages.get_available_entities c.remote_id) client_states_task msg c
  run_request msg subscribe_events ids c =
      (waits (subscribe_task msg.ws_id msg.msg_data) msg.req_id (codec.message_name msg.request), c)
  run_request msg unsubscribe_events ids c = (
    waits (unsubscribe_task msg.ws_id msg.msg_data) msg.req_id (codec.message_name msg.request),
    c,
  )
  run_request msg entity_command ids c =
      command_client c.ha_client (deserialize codec.entity_command_data msg.msg_data) msg c
  -- Not reached: these requests were answered before.
  run_request msg _ ids c = (ready (ok none), c)

  unfoldable pub running_request :
      R2RequestMsg p → R2Session → Controller p → Reply p × Controller p
  running_request msg s c₀ =
      let (accepted, c₁) = sm_consume w msg.ws_id r2_request c₀ in
      elim accepted [
        | err _ ↦
            (ready (err (service_unavailable "Request cannot be handled: setup required")), c₁)
        | ok _ ↦
            let (answer, ids, c) = note_request msg s msg.request c₁ in
            elim answer [
              | some m ↦ (ready (ok (some m)), c)
              | none ↦ run_request msg msg.request ids c
            ]
      ]

  unfoldable pub session_request :
      R2RequestMsg p → R2Session → Controller p → Reply p × Controller p
  session_request msg s c = elim (metadata_reply msg c msg.request) [
    | some m ↦ (ready (ok (some m)), c)
    | none ↦ elim (setup_task msg msg.request) [
      | some t ↦ (reply_of_task msg t, c)
      | none ↦ running_request msg s c
    ]
  ]

  -- `Handler<R2RequestMsg>`
  unfoldable pub request_msg : R2RequestMsg p → Controller p → Reply p × Controller p
  request_msg msg c = elim (lookup msg.ws_id c.sessions) [
    | none ↦ (ready (err (not_found "No session found")), c)
    | some s ↦
        session_request msg s
          (record c { sessions = modify msg.ws_id (set_standby false) c.sessions })
  ]

-- What the future returns to the connection of the remote, once its task has an answer.
unfoldable pub finish_request :
    {p : Platform} → Task p → ℕ → String → Result (Unit {0}) → Result (Option (WsMessage p))
finish_request client_states_task req_id name answer = answer >>= λ _. ok none
finish_request client_command_task req_id name answer =
    answer >>= λ _. ok (some (response req_id "result" (result_data "OK" "Service call sent")))
finish_request _ req_id name answer = answer >>= λ _. ok (some (response req_id name no_data))
