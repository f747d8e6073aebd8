-- ===== src/Entity/States.antt =====
-- src/client/get_states.rs: `handle_get_states_result`.
use integration_home_assista.Prelude.{
  String, Option, none, some, List, [], ◌∷◌, or_else, str_eq, split_once_dot, if◌then◌else◌, ◌||◌,
}
use integration_home_assista.Json.{Value, Items, nil, cons, Fields, get_then, as_str, as_object}
use integration_home_assista.Platform.{Platform}
use integration_home_assista.Errors.{Result, ok, err}
use integration_home_assista.Api.{
  EntityType, button, switch, climate, cover, light, media_player, remote, sensor, activity, macro,
  ir_emitter, AvailableIntgEntity,
}
use integration_home_assista.Entity.Interface.{Decoder, Converters}

-- The names of the entity types that Home Assistant splits further.
unfoldable pub mapped_type : String → String
mapped_type domain =
    if str_eq domain "input_boolean"
    then "switch"
    else if str_eq domain "binary_sensor"
    then "sensor"
    else if str_eq domain "input_button" || str_eq domain "script" || str_eq domain "scene"
    then "button"
    else domain

-- `entity.get(key).and_then(f)`; a value that is no object has no entries.
abbrev pub entry : {F A : Type 0} → (Value F → Option A) → String → Value F → Option A
entry f key v = elim (as_object v) [ none ↦ none | some fields ↦ get_then f key fields ]

module _ {p : Platform} where
  abbrev pub available_of : Option (Result (AvailableIntgEntity p)) → Option (AvailableIntgEntity p)
  available_of none = none
  available_of (some (err _)) = none
  available_of (some (ok entity)) = some entity

module _ {p : Platform} (converters : Converters p) (server : p.Url) where
  -- The conversion for a type; `none` for the types that have no entity in Home Assistant.
  unfoldable pub convert_entity :
      EntityType → String → String → Fields p.F64 → Option (Result (AvailableIntgEntity p))
  convert_entity button id state attr = some (converters.button_entity id state attr)
  convert_entity switch id state attr = some (converters.switch_entity id state attr)
  convert_entity climate id state attr = some (converters.climate_entity id state attr)
  convert_entity cover id state attr = some (converters.cover_entity id state attr)
  convert_entity light id state attr = some (converters.light_entity id state attr)
  convert_entity media_player id state attr =
      some (converters.media_player_entity server id state attr)
  convert_entity remote id state attr = some (converters.remote_entity id state attr)
  convert_entity sensor id state attr = some (converters.sensor_entity id state attr)
  convert_entity ir_emitter id state attr = none
  convert_entity activity id state attr = none
  convert_entity macro id state attr = none

module _ {p : Platform} (decoder : Decoder p) (converters : Converters p) (server : p.Url) where
  -- The body of the loop: `none` where the entity is left out.
  unfoldable pub convert_state : Value p.F64 → Option (AvailableIntgEntity p)
  unfolding mapped_type convert_entity
  convert_state entity =
      let entity_id = or_else (entry as_str "entity_id" entity) "" in
      elim (split_once_dot entity_id) [
        | none ↦ none
        | some (domain, _) ↦ elim (decoder.entity_type (mapped_type domain)) [
          | none ↦ none
          | some entity_type ↦ elim (entry as_object "attributes" entity) [
            | none ↦ none
            | some attr ↦ available_of (
                convert_entity converters server entity_type entity_id
                  (or_else (entry as_str "state" entity) "") attr)
          ]
        ]
      ]

  unfoldable pub convert_states : Items p.F64 → List (AvailableIntgEntity p)
  unfolding convert_state
  convert_states nil = []
  convert_states (cons entity entities) =
      let rest = convert_states entities in
      elim (convert_state entity) [ none ↦ rest | some available ↦ available ∷ rest ]

  -- `handle_get_states_result`
  unfoldable pub handle_get_states_result : Items p.F64 → Result (List (AvailableIntgEntity p))
  unfolding convert_states
  handle_get_states_result entities = ok (convert_states entities)
