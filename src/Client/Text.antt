-- ===== src/Client/Text.antt =====
-- src/client/mod.rs: `on_text_message` and `json_object_from_text_msg`.
use mathlib.Core.Option
use integration_home_assista.Prelude.{
  ℕ, ◌%◌, ◌^◌, String, Bool, true, false, Option, none, some, List, str_eq, or_else, not, ◌==◌,
  ◌&&◌, if◌then◌else◌,
}
use integration_home_assista.Json.{
  null, str, obj, Items, Fields, field, end, get, get_then, as_str, as_u64, as_bool, as_object,
  as_array,
}
use integration_home_assista.Platform.{Platform}
use integration_home_assista.Errors.{ok, err}
use integration_home_assista.Api.{AvailableIntgEntity}
use integration_home_assista.Controller.Connection.{client_connected, authentication_failed}
use integration_home_assista.Entity.Interface.{Decoder, Converters}
use integration_home_assista.Entity.States.{handle_get_states_result}
use integration_home_assista.Entity.Events.{event_change}
use integration_home_assista.Client.Socket.{send_json}
use integration_home_assista.Client.State.{
  HaClient, Surroundings, Notice, connection_event, entity_event, available_entities,
  set_available_entities, invalid, notify_close, tell,
}
use integration_home_assista.Client.Subscriptions.{
  send_uc_info_command, subscribe_standard_events, unsubscribe_standard_events,
  renew_uc_configuration, renew_uc_events, check_uc_ha_component,
}

-- `json_object_from_text_msg`
unfoldable pub json_object_from_text_msg :
    {p : Platform} → Decoder p → List ℕ → Option (Fields p.F64)
json_object_from_text_msg decoder bytes = elim (decoder.from_slice bytes) [
  | none ↦ none
  | some msg ↦ as_object msg
]

-- `Some(id) == request`
abbrev pub is_request : ℕ → Option ℕ → Bool
is_request id none = false
is_request id (some request) = id == request

module _ {p : Platform} where
  -- The results of the three subscriptions.
  unfoldable pub configure_result : Bool → HaClient p → HaClient p
  configure_result success c = if success then c else record c { subscribe_configure_id = none }

  unfoldable pub uc_events_result : Bool → HaClient p → HaClient p
  uc_events_result true c = tell (connection_event c.id client_connected) c
  uc_events_result false c = record c { subscribe_uc_events_id = none }

  unfoldable pub standard_events_result : Bool → HaClient p → HaClient p
  standard_events_result true c =
      tell (connection_event c.id client_connected) (record c { subscribed_events = true })
  standard_events_result false c = notify_close invalid (record c { subscribed_events = false })

module _ {p : Platform} (w : Surroundings p) where
  -- A `try_send` to the controller; a refusal is only logged.
  unfoldable pub try_tell : Notice p → HaClient p → HaClient p
  try_tell n c = if w.takes_notice n then tell n c else c

  -- `if self.subscribed_events { self.unsubscribe_standard_events(ctx); }`
  unfoldable pub end_standard_events : HaClient p → Option (HaClient p)
  unfolding unsubscribe_standard_events
  end_standard_events c = if c.subscribed_events then unsubscribe_standard_events w c else some c

  -- The component has answered: its events replace the standard events.
  unfoldable pub component_found : HaClient p → Option (HaClient p)
  unfolding end_standard_events renew_uc_configuration renew_uc_events
  component_found c =
      let found = record (tell (connection_event c.id client_connected) c) {
        uc_ha_component = true;
      } in
      Option.map (λ d. renew_uc_events w (renew_uc_configuration w d)) (end_standard_events found)

  -- The result of `unfoldedcircle/info`.
  unfoldable pub info_result : Bool → HaClient p → Option (HaClient p)
  unfolding component_found subscribe_standard_events
  info_result true c = component_found c
  info_result false c = some (if c.subscribed_events then c else subscribe_standard_events w c)

  -- `auth_required`
  unfoldable pub auth_required : HaClient p → HaClient p
  unfolding send_json
  auth_required c =
      let (r, c') =
        send_json w
          (obj (field "type" (str "auth") (field "access_token" (str c.access_token) end))) c in
      elim r [ ok _ ↦ c' | err _ ↦ notify_close invalid c' ]

  -- `auth_ok`
  unfoldable pub auth_ok : HaClient p → HaClient p
  unfolding send_uc_info_command check_uc_ha_component
  auth_ok c =
      check_uc_ha_component w w.now (send_uc_info_command w (record c { authenticated = true }))

module _ {p : Platform} (decoder : Decoder p) (converters : Converters p) (w : Surroundings p) where
  -- A list of states, as a message to the controller.
  unfoldable pub tell_states :
      (String → List (AvailableIntgEntity p) → Notice p) → Items p.F64 → HaClient p → HaClient p
  unfolding try_tell handle_get_states_result
  tell_states notice states c = elim (handle_get_states_result decoder converters c.server states) [
    | ok entities ↦ try_tell w (notice c.id entities) c
    | err _ ↦ c
  ]

  -- The event of the configure subscription: the entities that Home Assistant wants subscribed.
  unfoldable pub configure_event : Fields p.F64 → HaClient p → HaClient p
  unfolding tell_states
  configure_event msg c = elim (get_then as_object "event" msg) [
    | none ↦ c
    | some change ↦ elim (get_then as_array "data" change) [
      | none ↦ c
      | some states ↦ tell_states set_available_entities states c
    ]
  ]

  -- A change of an entity.
  unfoldable pub state_event : Fields p.F64 → HaClient p → HaClient p
  unfolding try_tell event_change
  state_event msg c = elim (decoder.event_data (or_else (get "event" msg) null)) [
    | none ↦ c
    | some e ↦ elim (event_change decoder converters c.server e) [
      | ok (some change) ↦ try_tell w (entity_event c.id change) c
      | ok none ↦ c
      | err _ ↦ c
    ]
  ]

  -- The arm `"event"`.
  unfoldable pub on_event : ℕ → Fields p.F64 → HaClient p → HaClient p
  unfolding configure_event state_event
  on_event id msg c =
      if not (is_request id c.subscribe_standard_events_id)
        && not (is_request id c.subscribe_uc_events_id)
        && not (is_request id c.subscribe_configure_id)
      then c
      else if is_request id c.subscribe_configure_id
      then configure_event msg c
      else state_event msg c

  -- The result of `get_states`: a failure closes the connection, and states are passed on all the same.
  unfoldable pub states_result : Bool → Fields p.F64 → HaClient p → HaClient p
  unfolding tell_states
  states_result success msg c =
      let c' = if success then c else notify_close invalid c in
      elim (get_then as_array "result" msg) [
        | none ↦ c'
        | some states ↦ tell_states available_entities states c'
      ]

  -- The arm `"result"`; `none` is a panic.
  unfoldable pub on_result : ℕ → Fields p.F64 → HaClient p → Option (HaClient p)
  unfolding info_result configure_result uc_events_result standard_events_result states_result
  on_result id msg c =
      let success = or_else (get_then as_bool "success" msg) false in
      if is_request id c.uc_ha_component_info_id
      then info_result w success c
      else if is_request id c.subscribe_configure_id
      then some (configure_result success c)
      else if is_request id c.subscribe_uc_events_id
      then some (uc_events_result success c)
      else if is_request id c.subscribe_standard_events_id
      then some (standard_events_result success c)
      else if is_request id c.entity_states_id
      then some (states_result success msg c)
      else some c

  -- The message by its `type`; `none` is a panic.
  unfoldable pub on_message : Fields p.F64 → HaClient p → Option (HaClient p)
  unfolding on_event on_result auth_required auth_ok
  on_message msg c =
      let id = or_else (get_then as_u64 "id" msg) 0 % 2 ^ 32 in
      let type = or_else (get_then as_str "type" msg) "" in
      if str_eq type "event"
      then some (on_event id msg c)
      else if str_eq type "result"
      then on_result id msg c
      else if str_eq type "auth_required"
      then some (auth_required w c)
      else if str_eq type "auth_invalid"
      then some (tell (connection_event c.id authentication_failed) c)
      else if str_eq type "auth_ok"
      then some (auth_ok w c)
      else if str_eq type "pong"
      then some (record c { last_hb = w.now })
      else some c

  -- `on_text_message`; `none` is a panic.
  unfoldable pub on_text_message : List ℕ → HaClient p → Option (HaClient p)
  unfolding on_message json_object_from_text_msg
  on_text_message bytes c = elim (json_object_from_text_msg decoder bytes) [
    | none ↦ some (notify_close invalid c)
    | some msg ↦ on_message msg c
  ]
