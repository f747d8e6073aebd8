-- ===== src/Entity/Events.antt =====
-- src/client/event.rs: the conversion of an event, and of the states on and off.
use Prim.Native.String
use integration_home_assista.Prelude.{
  String, Bool, Option, none, some, str_eq, split_once_dot, is_empty, if◌then◌else◌, ◌||◌,
}
use integration_home_assista.Json.{Value, str}
use integration_home_assista.Platform.{Platform}
use integration_home_assista.Errors.{Result, ok, err, bad_request}
use integration_home_assista.Api.{EntityChange}
use integration_home_assista.Entity.Interface.{EventData, Decoder, Converters}

-- The states that have a value of their own, with it.
unfoldable pub onoff_state : String → Option String
onoff_state state =
    if str_eq state "on"
    then some "ON"
    else if str_eq state "off"
    then some "OFF"
    else if str_eq state "unavailable"
    then some "UNAVAILABLE"
    else if str_eq state "unknown"
    then some "UNKNOWN"
    else none

-- `convert_ha_onoff_state`
unfoldable pub convert_ha_onoff_state : {F : Type 0} → String → Result (Value F)
unfolding onoff_state
convert_ha_onoff_state state = elim (onoff_state state) [
  | none ↦ err (bad_request (String.◌++◌ "Unknown state: " state))
  | some value ↦ ok (str value)
]

abbrev is_stateless : String → Bool
is_stateless domain =
    str_eq domain "button" || str_eq domain "input_button" || str_eq domain "script"

module _ {p : Platform} (converters : Converters p) (server : p.Url) where
  -- The change for the domain of the entity; `none` where the event is ignored.
  unfoldable pub convert_change : String → EventData p → Option (Result (EntityChange p))
  convert_change domain e =
      if str_eq domain "light"
      then some (converters.light_event e)
      else if str_eq domain "switch" || str_eq domain "input_boolean"
      then some (converters.switch_event e)
      else if is_stateless domain
      then none
      else if str_eq domain "cover"
      then some (converters.cover_event e)
      else if str_eq domain "sensor"
      then some (converters.sensor_event e)
      else if str_eq domain "binary_sensor"
      then some (converters.binary_sensor_event e)
      else if str_eq domain "climate"
      then some (converters.climate_event e)
      else if str_eq domain "media_player"
      then some (converters.media_player_event server e)
      else if str_eq domain "remote"
      then some (converters.remote_event e)
      else none

-- How `handle_event` ends for a change: `none` where it ignores the event.
abbrev pub changed : {A : Type 0} → Option (Result A) → Result (Option A)
changed none = ok none
changed (some (err problem)) = err problem
changed (some (ok change)) = ok (some change)

module _ {p : Platform} (decoder : Decoder p) (converters : Converters p) (server : p.Url) where
  -- `handle_event`, up to the message to the controller: its entity change, if any.
  unfoldable pub event_change : EventData p → Result (Option (EntityChange p))
  unfolding convert_change
  event_change e = elim (split_once_dot e.entity_id) [
    | none ↦ err (bad_request "Invalid entity_id format")
    | some (domain, _) ↦
        if is_empty e.entity_id || is_empty e.state
        then err (
            bad_request
              (String.◌++◌ "Missing data in state_changed event: " (decoder.event_debug e)))
        else changed (convert_change converters server domain e)
  ]
