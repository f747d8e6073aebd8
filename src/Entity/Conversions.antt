-- ===== src/Entity/Conversions.antt =====
-- src/client/entity: the conversions behind the interface that src/client/get_states.rs and
-- src/client/event.rs use.
use integration_home_assista.Platform.{Platform}
use integration_home_assista.Entity.Interface.{Converters}
use integration_home_assista.Entity.Common.{EntityLib}
use integration_home_assista.Entity.Simple.{
  convert_button_entity, convert_switch_entity, convert_remote_entity, convert_sensor_entity,
  switch_event_to_entity_change, remote_event_to_entity_change, sensor_event_to_entity_change,
  binary_sensor_event_to_entity_change,
}
use integration_home_assista.Entity.Cover.{convert_cover_entity, cover_event_to_entity_change}
use integration_home_assista.Entity.Climate.{convert_climate_entity, climate_event_to_entity_change}
use integration_home_assista.Entity.Light.{convert_light_entity, light_event_to_entity_change}
use integration_home_assista.Entity.MediaPlayer.{
  convert_media_player_entity, media_player_event_to_entity_change,
}

abbrev pub conversions : {p : Platform} → EntityLib p → Converters p
conversions {p} lib = record {
  button_entity = convert_button_entity p;
  switch_entity = convert_switch_entity p;
  climate_entity = convert_climate_entity lib;
  cover_entity = convert_cover_entity p lib;
  light_entity = convert_light_entity lib;
  media_player_entity = convert_media_player_entity lib;
  remote_entity = convert_remote_entity p lib;
  sensor_entity = convert_sensor_entity p;
  light_event = light_event_to_entity_change lib;
  switch_event = switch_event_to_entity_change p;
  cover_event = cover_event_to_entity_change p;
  sensor_event = sensor_event_to_entity_change p;
  binary_sensor_event = binary_sensor_event_to_entity_change p;
  climate_event = climate_event_to_entity_change lib;
  media_player_event = media_player_event_to_entity_change lib;
  remote_event = remote_event_to_entity_change p;
}
