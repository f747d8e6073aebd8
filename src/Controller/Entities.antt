-- ===== src/Controller/Entities.antt =====
-- src/controller/handler/ha_event.rs: entity events, the lists of available entities, and the event
-- subscriptions of the remotes.
pub mod Subscriptions
pub mod Answers
pub mod Delivery
use integration_home_assista.Prelude.{
  ℕ, String, Bool, true, false, ◌||◌, Option, none, some, List, [], ◌∷◌, map, or_else, str_eq,
  if◌then◌else◌,
}
use integration_home_assista.Prelude.Dict.{Dict, lookup, modify}
use integration_home_assista.Json.{Value, end}
use integration_home_assista.Errors.{
  Result, ok, err, service_unavailable, not_connected, internal_server_error,
}
use integration_home_assista.Platform.{Platform}
use integration_home_assista.Api.{EntityChange, AvailableIntgEntity, Codec, entity, deserialize}
use integration_home_assista.Controller.Machine.{OperationModeState, running}
use integration_home_assista.Controller.Messages.{
  WsMessage, response, event, entity_change_data, available_entities_data, entity_states_data,
  subscribed_entities, Sent, to_r2, to_ha,
}
use integration_home_assista.Controller.State.{R2Session, World, Controller, emit}
use integration_home_assista.Controller.Core.{send_r2_msg}

abbrev pub is_running : OperationModeState → Bool
is_running running = true
is_running _ = false

-- A `HashSet<String>` is a list: membership, `extend` and `remove`.
unfoldable pub contains : String → List String → Bool
contains k [] = false
contains k (j ∷ ks) = str_eq j k || contains k ks

unfoldable pub set_insert : String → List String → List String
set_insert k ks = if contains k ks then ks else k ∷ ks

unfoldable pub set_extend : List String → List String → List String
set_extend [] set = set
set_extend (k ∷ ks) set = set_extend ks (set_insert k set)

unfoldable pub set_remove : String → List String → List String
set_remove k [] = []
set_remove k (j ∷ ks) = let rest = set_remove k ks in if str_eq j k then rest else j ∷ rest

unfoldable pub set_remove_all : List String → List String → List String
set_remove_all [] set = set
set_remove_all (k ∷ ks) set = set_remove_all ks (set_remove k set)

abbrev pub set_subscribed : List String → R2Session → R2Session
set_subscribed set s = record s { subscribed_entities = set }

module _ {p : Platform} where
  -- The `EntityChange` of an entity.
  abbrev to_change : AvailableIntgEntity p → EntityChange p
  to_change e = record {
    device_id = e.device_id;
    entity_type = e.entity_type;
    entity_id = e.entity_id;
    attributes = or_else e.attributes end;
  }

  -- The answer that is due to a session, with the session after it was sent: first to a pending
  -- `get_available_entities`, else to a pending `get_entity_states`.
  unfoldable pub due_answer :
      List (AvailableIntgEntity p) → R2Session → Option (WsMessage p × R2Session)
  due_answer entities s = elim s.get_available_entities_id [
    | some id ↦ some (
      response id "available_entities" (available_entities_data entities),
      record s { get_available_entities_id = none },
    )
    | none ↦ elim s.get_entity_states_id [
      | some id ↦ some (
        response id "entity_states" (entity_states_data (map to_change entities)),
        record s { get_entity_states_id = none },
      )
      | none ↦ none
    ]
  ]

  -- The loop of `Handler<SetAvailableEntities>`.
  unfoldable pub store_unless_standby :
      List (AvailableIntgEntity p)
      → Dict R2Session
      → Option (List (AvailableIntgEntity p))
      → Option (List (AvailableIntgEntity p))
  store_unless_standby entities [] stored = stored
  store_unless_standby entities ((_, s) ∷ rest) stored =
      store_unless_standby entities rest (if s.standby then stored else some entities)

  -- `Handler<SetAvailableEntities>`
  unfoldable pub set_available_entities : List (AvailableIntgEntity p) → Controller p → Controller p
  set_available_entities entities c = record c {
    subscribed_entity_ids = store_unless_standby entities c.sessions c.subscribed_entity_ids;
  }

module _ {p : Platform} (w : World p) where
  -- One round of the loop of `Handler<AvailableEntities>`: the session, and what was sent to it.
  unfoldable pub answer_session :
      List (AvailableIntgEntity p) → R2Session → R2Session × Option (WsMessage p)
  answer_session entities s = if s.standby then (s, none) else elim (due_answer entities s) [
    | none ↦ (s, none)
    | some (m, s') ↦ if w.r2_accepts s.recipient m then (s', some m) else (s, none)
  ]

  abbrev add_sent : ℕ → Option (WsMessage p) → List (Sent p) → List (Sent p)
  add_sent recipient none sent = sent
  add_sent recipient (some m) sent = to_r2 recipient m ∷ sent

  unfoldable pub answer_sessions :
      List (AvailableIntgEntity p) → Dict R2Session → List (Sent p) → Dict R2Session × List (Sent p)
  answer_sessions entities [] sent = ([], sent)
  answer_sessions entities ((id, s) ∷ rest) sent =
      let (s', m) = answer_session entities s in
      let (rest', sent') = answer_sessions entities rest (add_sent s.recipient m sent) in
      ((id, s') ∷ rest', sent')

  -- `Handler<AvailableEntities>`
  unfoldable pub available_entities : List (AvailableIntgEntity p) → Controller p → Controller p
  available_entities entities c =
      let (sessions, sent) = answer_sessions entities c.sessions c.sent in
      record c { sessions = sessions; sent = sent }

  unfoldable pub send_to_each : WsMessage p → Dict R2Session → Controller p → Controller p
  send_to_each m [] c = c
  send_to_each m ((id, _) ∷ rest) c = send_to_each m rest (send_r2_msg w m id c)

  -- `Handler<EntityEvent>`
  unfoldable pub entity_event : EntityChange p → Controller p → Controller p
  entity_event change c =
      send_to_each (event "entity_change" entity (entity_change_data change)) c.sessions c

  -- Stores the subscriptions of a session, and sends them to the client if there is one.
  unfoldable pub update_subscriptions :
      String → List String → Controller p → Result (Unit {0}) × Controller p
  update_subscriptions ws_id set c₀ =
      let c = record c₀ { sessions = modify ws_id (set_subscribed set) c₀.sessions } in
      elim c.ha_client [
        | none ↦ (ok tt, c)
        | some addr ↦
            if w.ha_accepts addr (subscribed_entities set)
            then (ok tt, emit (to_ha addr (subscribed_entities set)) c)
            else (err (internal_server_error "Error sending internal message"), c)
      ]

  -- What the two handlers share; `change` is applied to the subscriptions.
  unfoldable pub with_subscriptions :
      (List String → List String → List String)
      → String
      → Result (List String)
      → Controller p
      → Result (Unit {0}) × Controller p
  with_subscriptions change ws_id decoded c =
      if is_running c.machine
      then elim (lookup ws_id c.sessions) [
        | none ↦ (err not_connected, c)
        | some s ↦ elim decoded [
          | err e ↦ (err e, c)
          | ok ids ↦ update_subscriptions ws_id (change ids s.subscribed_entities) c
        ]
      ]
      else (err (service_unavailable "Setup required"), c)

  -- `Handler<SubscribeHaEventsMsg>`
  unfoldable pub subscribe_ha_events :
      Codec p → String → Option (Value p.F64) → Controller p → Result (Unit {0}) × Controller p
  subscribe_ha_events codec ws_id data_ =
      with_subscriptions set_extend ws_id (deserialize codec.subscribe_events_data data_)

  -- `Handler<UnsubscribeHaEventsMsg>`
  unfoldable pub unsubscribe_ha_events :
      Codec p → String → Option (Value p.F64) → Controller p → Result (Unit {0}) × Controller p
  unsubscribe_ha_events codec ws_id data_ =
      with_subscriptions set_remove_all ws_id (deserialize codec.subscribe_events_data data_)
