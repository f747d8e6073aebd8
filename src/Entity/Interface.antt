-- ===== src/Entity/Interface.antt =====
-- What the states and events of src/client/get_states.rs and src/client/event.rs need: the decoding of
-- `serde` and `uc_api`, and the conversions by entity type of src/client/entity.
use integration_home_assista.Prelude.{ℕ, List, String, Option}
use integration_home_assista.Json.{Value, Fields}
use integration_home_assista.Platform.{Platform}
use integration_home_assista.Errors.{Result}
use integration_home_assista.Api.{EntityType, EntityChange, AvailableIntgEntity}

-- `EventData` of src/client/model.rs, with the fields of its `EventState`.
pub record EventData (p : Platform) : Type 0 where
  pub entity_id : String
  pub state : String
  pub attributes : Option (Fields p.F64)

-- `serde_json::from_slice`, the decoding of `Event`, its `{:?}`, and `EntityType::from_str`.
pub record Decoder (p : Platform) : Type 0 where
  pub from_slice : List ℕ → Option (Value p.F64)
  pub event_data : Value p.F64 → Option (EventData p)
  pub event_debug : EventData p → String
  pub entity_type : String → Option EntityType

abbrev pub Convert : Platform → Type 0
Convert p = String → String → Fields p.F64 → Result (AvailableIntgEntity p)

abbrev pub EventConvert : Platform → Type 0
EventConvert p = EventData p → Result (EntityChange p)

-- `convert_*_entity` and `*_event_to_entity_change`.
pub record Converters (p : Platform) : Type 0 where
  pub button_entity : Convert p
  pub switch_entity : Convert p
  pub climate_entity : Convert p
  pub cover_entity : Convert p
  pub light_entity : Convert p
  pub media_player_entity : p.Url → Convert p
  pub remote_entity : Convert p
  pub sensor_entity : Convert p
  pub light_event : EventConvert p
  pub switch_event : EventConvert p
  pub cover_event : EventConvert p
  pub sensor_event : EventConvert p
  pub binary_sensor_event : EventConvert p
  pub climate_event : EventConvert p
  pub media_player_event : p.Url → EventConvert p
  pub remote_event : EventConvert p
