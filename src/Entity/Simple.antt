-- ===== src/Entity/Simple.antt =====
-- src/client/entity/button.rs, switch.rs, remote.rs and sensor.rs.
use integration_home_assista.Prelude.{
  String, Bool, false, Option, none, some, [], ◌∷◌, str_eq, ◌||◌, if◌then◌else◌,
}
use integration_home_assista.Json.{Value, bool, str, Fields, end, get, put, get_then, as_str}
use integration_home_assista.Platform.{Platform}
use integration_home_assista.Errors.{Result, ok, ◌>>=◌}
use integration_home_assista.Api.{button, switch, remote, sensor}
use integration_home_assista.Entity.Interface.{Convert, EventConvert}
use integration_home_assista.Entity.Events.{convert_ha_onoff_state}
use integration_home_assista.Entity.Common.{
  EntityLib, toggle, send_cmd, on_off, entity_name, feature_texts, change_of,
}

module _ (p : Platform) where
  -- `convert_button_entity`
  unfoldable pub convert_button_entity : Convert p
  convert_button_entity entity_id state ha_attr = ok (record {
    entity_id = entity_id;
    device_id = none;
    entity_type = button;
    device_class = none;
    name = entity_name entity_id ha_attr;
    features = none;
    area = none;
    options = none;
    attributes = none;
  })

  -- `map_switch_attributes` and `map_remote_attributes`: the state only.
  unfoldable pub map_onoff_attributes : String → Option (Fields p.F64) → Result (Fields p.F64)
  unfolding convert_ha_onoff_state put
  map_onoff_attributes state ha_attr = do
    value ← convert_ha_onoff_state state
    ok (put "state" value end)

  unfoldable pub switch_event_to_entity_change : EventConvert p
  unfolding map_onoff_attributes
  switch_event_to_entity_change = change_of switch map_onoff_attributes

  abbrev switch_class : Option String → Option String
  switch_class none = none
  switch_class (some c) = if str_eq c "outlet" || str_eq c "switch" then some c else none

  unfoldable pub convert_switch_entity : Convert p
  unfolding map_onoff_attributes
  convert_switch_entity entity_id state ha_attr = do
    attributes ← map_onoff_attributes state (some ha_attr)
    ok (record {
      entity_id = entity_id;
      device_id = none;
      entity_type = switch;
      device_class = switch_class (get_then as_str "device_class" ha_attr);
      name = entity_name entity_id ha_attr;
      features = some ("toggle" ∷ []);
      area = none;
      options = none;
      attributes = some attributes;
    })

  unfoldable pub remote_event_to_entity_change : EventConvert p
  unfolding map_onoff_attributes
  remote_event_to_entity_change = change_of remote map_onoff_attributes

  unfoldable pub convert_remote_entity : EntityLib p → Convert p
  unfolding map_onoff_attributes
  convert_remote_entity lib entity_id state ha_attr = do
    attributes ← map_onoff_attributes state (some ha_attr)
    ok (record {
      entity_id = entity_id;
      device_id = none;
      entity_type = remote;
      device_class = none;
      name = entity_name entity_id ha_attr;
      features = some (feature_texts lib.feature_text (send_cmd ∷ on_off ∷ toggle ∷ []));
      area = none;
      options = none;
      attributes = some attributes;
    })

  -- `map_sensor_attributes`
  unfoldable pub map_sensor_attributes : String → Option (Fields p.F64) → Result (Fields p.F64)
  unfolding put get
  map_sensor_attributes state none = ok (put "value" (str state) end)
  map_sensor_attributes state (some ha_attr) = elim (get "unit_of_measurement" ha_attr) [
    | none ↦ ok (put "value" (str state) end)
    | some unit ↦ ok (put "unit" unit (put "value" (str state) end))
  ]

  unfoldable pub sensor_event_to_entity_change : EventConvert p
  unfolding map_sensor_attributes
  sensor_event_to_entity_change = change_of sensor map_sensor_attributes

  abbrev is_on : Value p.F64 → Bool
  is_on (str s) = str_eq s "ON"
  is_on _ = false

  -- `binary_sensor_event_to_entity_change`
  abbrev pub map_binary_sensor : String → Option (Fields p.F64) → Result (Fields p.F64)
  map_binary_sensor state ha_attr = do
    value ← convert_ha_onoff_state state
    ok (put "unit" (str "boolean") (put "state" value (put "value" (bool (is_on value)) end)))

  unfoldable pub binary_sensor_event_to_entity_change : EventConvert p
  unfolding convert_ha_onoff_state put
  binary_sensor_event_to_entity_change = change_of sensor map_binary_sensor

  abbrev sensor_class : Option String → Option String
  sensor_class none = some "custom"
  sensor_class (some c) =
      if str_eq c "battery"
        || str_eq c "current"
        || str_eq c "energy"
        || str_eq c "humidity"
        || str_eq c "power"
        || str_eq c "temperature"
        || str_eq c "voltage"
      then some c
      else some "custom"

  -- `convert_sensor_entity`; the options that it collects are not part of its result.
  unfoldable pub convert_sensor_entity : Convert p
  unfolding map_sensor_attributes
  convert_sensor_entity entity_id state ha_attr = do
    attributes ← map_sensor_attributes state (some ha_attr)
    ok (record {
      entity_id = entity_id;
      device_id = none;
      entity_type = sensor;
      device_class = sensor_class (get_then as_str "device_class" ha_attr);
      name = entity_name entity_id ha_attr;
      features = none;
      area = none;
      options = none;
      attributes = some attributes;
    })
