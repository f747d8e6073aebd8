-- ===== src/Api.antt =====
-- The message types of the integration API that the code shares with the crate `uc_api`: the
-- variants that the source names, with one more where a catch-all arm covers the rest.
use integration_home_assista.Prelude.{String, Bool, Option, none, some, List, ◌⊎◌, inl, inr}
use integration_home_assista.Prelude.Dict.{Dict}
use integration_home_assista.Json.{Value, Fields}
use integration_home_assista.Errors.{Result, ok, err, serialization_error}
use integration_home_assista.Platform.{Platform}

-- `DeviceState`; `other_state` is any variant that the code does not name.
pub data DeviceState : Type 0 where
  disconnected connecting connected error other_state : DeviceState

-- `EntityType`
pub data EntityType : Type 0 where
  button switch climate cover light media_player remote sensor : EntityType
  activity macro ir_emitter : EntityType

-- `R2Request`
pub data R2Request : Type 0 where
  get_driver_version get_driver_metadata get_device_state : R2Request
  setup_driver set_driver_user_data : R2Request
  get_entity_states get_available_entities : R2Request
  subscribe_events unsubscribe_events entity_command : R2Request

-- `R2Event`
pub data R2Event : Type 0 where
  connect disconnect enter_standby exit_standby abort_driver_setup : R2Event

-- `R2Response`; `other_response` is any variant that the code does not name.
pub data R2Response : Type 0 where
  runtime_info version other_response : R2Response

-- `SetupDriver`
pub record SetupDriver : Type 0 where
  pub reconfigure : Option Bool
  pub setup_data : Dict String

-- `IntegrationSetup`: input values, or another answer.
pub data IntegrationSetup : Type 0 where
  input_values : Dict String → IntegrationSetup
  other_setup : IntegrationSetup

-- `IntegrationSetupError`; `other_setup_error` is any variant that the code does not name.
pub data IntegrationSetupError : Type 0 where
  timeout other_setup_error : IntegrationSetupError

-- `IntegrationSetupState`, as the final event names it.
pub data IntegrationSetupState : Type 0 where
  setup_ok setup_failed : IntegrationSetupState

-- `EventCategory`
pub data EventCategory : Type 0 where
  device entity : EventCategory

-- `EntityCommand`
pub record EntityCommand (p : Platform) : Type 0 where
  pub device_id : Option String
  pub entity_type : EntityType
  pub entity_id : String
  pub cmd_id : String
  pub params : Option (Fields p.F64)

-- `EntityChange`
pub record EntityChange (p : Platform) : Type 0 where
  pub device_id : Option String
  pub entity_type : EntityType
  pub entity_id : String
  pub attributes : Fields p.F64

-- `AvailableIntgEntity`
pub record AvailableIntgEntity (p : Platform) : Type 0 where
  pub entity_id : String
  pub device_id : Option String
  pub entity_type : EntityType
  pub device_class : Option String
  pub name : Dict String
  pub features : Option (List String)
  pub area : Option String
  pub options : Option (Fields p.F64)
  pub attributes : Option (Fields p.F64)

-- How the program decodes message data with `serde`, and the names that it takes from `uc_api` and
-- from the build. The text on the right is the error of the decoder.
pub record Codec (p : Platform) : Type 0 where
  pub message_name : R2Request → String
  pub setup_driver_data : Value p.F64 → SetupDriver ⊎ String
  pub setup_user_data : Value p.F64 → IntegrationSetup ⊎ String
  pub subscribe_events_data : Value p.F64 → List String ⊎ String
  pub entity_command_data : Value p.F64 → EntityCommand p ⊎ String
  pub driver_name : Option String
  pub api_version : String
  pub app_version : String

-- `DeserializeMsgData::deserialize` of src/util/from_msg_data.rs, with the conversion of the error.
unfoldable pub deserialize : {A J : Type 0} → (J → A ⊎ String) → Option J → Result A
deserialize decode none = err (serialization_error "Missing field: 'msg_data'")
deserialize decode (some m) = elim (decode m) [ inl a ↦ ok a | inr e ↦ err (serialization_error e) ]
