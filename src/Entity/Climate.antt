-- ===== src/Entity/Climate.antt =====
-- src/client/entity/climate.rs.
use integration_home_assista.Prelude.{
  String, Option, none, some, List, [], ◌∷◌, or_else, str_eq, if◌then◌else◌,
}
use integration_home_assista.Json.{
  Value, str, Items, nil, cons, Fields, field, end, get, put, get_then, as_str, as_array,
  move_entry, move_value, number_value, is_float_value,
}
use integration_home_assista.Platform.{Platform}
use integration_home_assista.Errors.{Result, ok, ◌>>=◌}
use integration_home_assista.Api.{climate}
use integration_home_assista.Entity.Interface.{Convert, EventConvert}
use integration_home_assista.Entity.Common.{
  EntityLib, Feature, on_off, heat, cool, target_temperature, current_temperature, ClimateOption,
  min_temperature, max_temperature, target_temperature_step, temperature_unit, entity_name,
  supported_features, has_bit, push_if, feature_texts, change_of,
}

-- The state of a climate entity; other states are only logged.
unfoldable pub climate_state : String → Option String
climate_state state =
    if str_eq state "unavailable"
    then some "UNAVAILABLE"
    else if str_eq state "unknown"
    then some "UNKNOWN"
    else if str_eq state "off"
    then some "OFF"
    else if str_eq state "heat"
    then some "HEAT"
    else if str_eq state "cool"
    then some "COOL"
    else if str_eq state "heat_cool"
    then some "HEAT_COOL"
    else if str_eq state "auto"
    then some "AUTO"
    else if str_eq state "fan_only"
    then some "FAN"
    else none

module _ {F : Type 0} where
  abbrev put_some : String → Option (Value F) → Fields F → Fields F
  put_some key none fields = fields
  put_some key (some v) fields = put key v fields

  abbrev text_value : Option String → Option (Value F)
  text_value none = none
  text_value (some s) = some (str s)

  -- The attributes that are taken over, without the state.
  unfoldable pub move_temperatures : Fields F × Fields F → Fields F × Fields F
  unfolding move_entry move_value
  move_temperatures both = move_entry "target_temperature_low" (
      move_entry "target_temperature_high"
        (move_value "temperature" "target_temperature" (move_entry "current_temperature" both)))

  abbrev put_fan_mode : (String → String) → Fields F × Fields F → Fields F
  put_fan_mode upper (ha_attr, attributes) = elim (get_then as_str "fan_mode" ha_attr) [
    | none ↦ attributes
    | some mode ↦ put "fan_mode" (str (upper mode)) attributes
  ]

  unfoldable pub climate_attributes : (String → String) → Option (Fields F) → Fields F → Fields F
  unfolding move_temperatures
  climate_attributes upper none attributes = attributes
  climate_attributes upper (some ha_attr) attributes =
      put_fan_mode upper (move_temperatures (ha_attr, attributes))

  -- The features of the list `hvac_modes`.
  unfoldable pub hvac_features : Items F → List Feature → List Feature
  hvac_features nil rest = rest
  hvac_features (cons v vs) rest =
      let mode = or_else (as_str v) "" in
      let others = hvac_features vs rest in
      if str_eq mode "off"
      then on_off ∷ others
      else if str_eq mode "heat"
      then heat ∷ others
      else if str_eq mode "cool"
      then cool ∷ others
      else others

  unfoldable pub climate_features : Fields F → List Feature
  unfolding hvac_features is_float_value
  climate_features ha_attr =
      let measured =
        push_if (has_bit 0 (supported_features ha_attr)) (target_temperature ∷ [])
          (push_if (is_float_value ha_attr "current_temperature") (current_temperature ∷ []) []) in
      elim (get_then as_array "hvac_modes" ha_attr) [
        | none ↦ measured
        | some modes ↦ hvac_features modes measured
      ]

  unfoldable pub climate_options : (ClimateOption → String) → Fields F → Fields F
  unfolding number_value
  climate_options text ha_attr = put_some (text temperature_unit) (get "temperature_unit" ha_attr) (
      put_some (text target_temperature_step) (number_value ha_attr "target_temp_step") (
        put_some (text max_temperature) (number_value ha_attr "max_temp")
          (put_some (text min_temperature) (number_value ha_attr "min_temp") end)))

  abbrev unless_empty : Fields F → Option (Fields F)
  unless_empty end = none
  unless_empty (field k v fs) = some (field k v fs)

module _ {p : Platform} (lib : EntityLib p) where
  -- `map_climate_attributes`
  unfoldable pub map_climate_attributes : String → Option (Fields p.F64) → Result (Fields p.F64)
  unfolding climate_state climate_attributes
  map_climate_attributes state ha_attr = ok (
      climate_attributes lib.to_uppercase ha_attr
        (put_some "state" (text_value (climate_state state)) end))

  unfoldable pub climate_event_to_entity_change : EventConvert p
  unfolding map_climate_attributes
  climate_event_to_entity_change = change_of climate map_climate_attributes

  unfoldable pub convert_climate_entity : Convert p
  unfolding map_climate_attributes climate_features climate_options
  convert_climate_entity entity_id state ha_attr = do
    attributes ← map_climate_attributes state (some ha_attr)
    ok (record {
      entity_id = entity_id;
      device_id = none;
      entity_type = climate;
      device_class = none;
      name = entity_name entity_id ha_attr;
      features = some (feature_texts lib.feature_text (climate_features ha_attr));
      area = none;
      options = unless_empty (climate_options lib.climate_option_text ha_attr);
      attributes = some attributes;
    })
