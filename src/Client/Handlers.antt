-- ===== src/Client/Handlers.antt =====
-- The messages of the controller to the client (src/client/close_handler.rs, get_states.rs,
-- get_entities.rs, set_remote_id.rs, subscribed_entities.rs and service/mod.rs).
use mathlib.Core.Option
use integration_home_assista.Prelude.{ℕ, String, true, Option, none, some, List, if◌then◌else◌}
use integration_home_assista.Json.{Value, str, arr, obj, Fields, field, end}
use integration_home_assista.Platform.{Platform}
use integration_home_assista.Errors.{Result, ok, err}
use integration_home_assista.Api.{EntityCommand}
use integration_home_assista.Controller.Messages.{
  HaMsg, close, set_remote_id, subscribed_entities, get_states, get_available_entities,
  call_service,
}
use integration_home_assista.Service.Commands.{CommandNames}
use integration_home_assista.Service.Call
use integration_home_assista.Service.Call.{CallServiceMsg}
use integration_home_assista.Client.State.{
  HaClient, Surroundings, CloseCode, normal, close_frame, force_stop_later, next_id, run_later,
}
use integration_home_assista.Client.Socket.{send_message, send_json, command}
use integration_home_assista.Client.Subscriptions.{
  text_items, send_uc_info_command, renew_uc_configuration, renew_uc_events,
}

-- The messages that fetch states.
abbrev pub get_states_command : {F : Type 0} → ℕ → Value F
get_states_command id = command id "get_states" end

abbrev pub uc_states_command : {F : Type 0} → ℕ → List String → String → Value F
uc_states_command id entity_ids remote_id = command id "unfoldedcircle/entities/states" (
    field "data"
      (obj
        (field "entity_ids" (arr (text_items entity_ids)) (field "client_id" (str remote_id) end)))
      end)

abbrev pub with_service_data : {F : Type 0} → Option (Value F) → Fields F → Fields F
with_service_data none rest = rest
with_service_data (some v) rest = field "service_data" v rest

-- `CallServiceMsg` as JSON.
abbrev pub call_value : {p : Platform} → CallServiceMsg p → Value p.F64
call_value m = command m.id "call_service" (
    field "domain" (str m.domain) (
      field "service" (str m.service) (
        with_service_data m.service_data
          (field "target" (obj (field "entity_id" (str m.entity_id) end)) end))))

module _ {p : Platform} (w : Surroundings p) where
  -- `Handler<Close>`: a Close frame, and a forced stop later.
  unfoldable pub close_handler : CloseCode → HaClient p → HaClient p
  unfolding send_message
  close_handler code c =
      let (r, c') = send_message w (close_frame code) c in
      elim r [ ok _ ↦ run_later force_stop_later 100 c' | err _ ↦ c' ]

  -- The message with the reserved id, for the entities of the argument.
  unfoldable pub request_states : ℕ → List String → HaClient p → Result (Unit {0}) × HaClient p
  unfolding send_json
  request_states id entity_ids c =
      if c.uc_ha_component
      then send_json w (uc_states_command id entity_ids c.remote_id) c
      else send_json w (get_states_command id) c

  -- The first part of both handlers that fetch states: the id is taken before the component is searched.
  unfoldable pub reserve_states : String → HaClient p → HaClient p
  unfolding send_uc_info_command
  reserve_states remote_id c =
      send_uc_info_command w
        (record c { remote_id = remote_id; ws_id = next_id c; entity_states_id = some (next_id c) })

  -- `Handler<GetStates>`
  unfoldable pub get_states_handler :
      String → List String → HaClient p → Result (Unit {0}) × HaClient p
  unfolding request_states reserve_states
  get_states_handler remote_id entity_ids c =
      request_states (next_id c) entity_ids (reserve_states remote_id c)

  -- `Handler<GetAvailableEntities>`
  unfoldable pub get_available_entities_handler :
      String → HaClient p → Result (Unit {0}) × HaClient p
  unfolding request_states reserve_states
  get_available_entities_handler remote_id c =
      let c' = reserve_states remote_id c in request_states (next_id c) c'.subscribed_entities c'

  -- `Handler<SetRemoteId>`
  unfoldable pub set_remote_id_handler : String → HaClient p → Result (Unit {0}) × HaClient p
  unfolding renew_uc_configuration
  set_remote_id_handler remote_id c =
      let c' = record c { remote_id = remote_id } in
      (ok tt, if c.uc_ha_component then renew_uc_configuration w c' else c')

  -- `Handler<SubscribedEntities>`
  unfoldable pub subscribed_entities_handler : List String → HaClient p → HaClient p
  unfolding renew_uc_configuration renew_uc_events
  subscribed_entities_handler entity_ids c =
      let c' = record c { subscribed_entities = entity_ids } in
      if c.authenticated then renew_uc_events w (renew_uc_configuration w c') else c'

  -- What `send_json` does with the message of a converted call.
  unfoldable pub send_call : HaClient p → Call.Called p → Result (Unit {0}) × HaClient p
  unfolding send_json
  send_call c called = elim called.written [
    | none ↦ (called.answer, c)
    | some m ↦ send_json w (call_value m) (record c { ws_id = m.id })
  ]

  -- `Handler<CallService>`; `none` is a panic.
  unfoldable pub call_service_handler :
      CommandNames
      → (String → String)
      → EntityCommand p
      → HaClient p
      → Option (Result (Unit {0}) × HaClient p)
  unfolding send_call
  call_service_handler names lower msg c =
      Option.map (send_call c) (Call.call_service names lower true c.ws_id msg)

  -- The handler of each message, with its answer; `none` is a panic.
  unfoldable pub handle_message :
      CommandNames
      → (String → String)
      → HaMsg p
      → HaClient p
      → Option (Result (Unit {0}) × HaClient p)
  unfolding close_handler get_states_handler get_available_entities_handler set_remote_id_handler
      subscribed_entities_handler call_service_handler
  handle_message names lower close c = some (ok tt, close_handler normal c)
  handle_message names lower (set_remote_id id) c = some (set_remote_id_handler id c)
  handle_message names lower (subscribed_entities ids) c =
      some (ok tt, subscribed_entities_handler ids c)
  handle_message names lower (get_states id ids) c = some (get_states_handler id ids c)
  handle_message names lower (get_available_entities id) c =
      some (get_available_entities_handler id c)
  handle_message names lower (call_service msg) c = call_service_handler names lower msg c
