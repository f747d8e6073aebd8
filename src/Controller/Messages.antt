-- ===== src/Controller/Messages.antt =====
-- The messages that the controller sends: to the remotes (`WsMessage` of `uc_api`), to the Home
-- Assistant client (src/client/messages.rs), and to itself (src/controller/handler/mod.rs and setup.rs).
use integration_home_assista.Prelude.{ℕ, String, Bool, Option, List}
use integration_home_assista.Platform.{Platform}
use integration_home_assista.Api.{
  DeviceState, IntegrationSetupError, IntegrationSetupState, EventCategory, EntityCommand,
  EntityChange, AvailableIntgEntity,
}

-- A field of a page of the setup flow, by its kind: its value, and the limits of a number. The labels
-- and translations are fixed text; that of a token tells whether the token is missing.
pub data PageField (p : Platform) : Type 0 where
  info_label : PageField p
  url_label url_text : p.Url → PageField p
  token_password : Bool → PageField p
  checkbox : Bool → PageField p
  -- The value, the minimum and the maximum.
  number : ℕ → ℕ → ℕ → PageField p
  factor : p.F32 → ℕ → ℕ → PageField p

-- The `msg_data` of a message.
pub data Body (p : Platform) : Type 0 where
  no_data : Body p
  driver_version : Option String → String → String → Body p
  driver_metadata : p.DriverMetadata → Body p
  device_state_data : DeviceState → Body p
  available_entities_data : List (AvailableIntgEntity p) → Body p
  entity_states_data : List (EntityChange p) → Body p
  entity_change_data : EntityChange p → Body p
  user_input : List (String × PageField p) → Body p
  setup_stop : IntegrationSetupState → Option IntegrationSetupError → Body p
  result_data : String → String → Body p

-- `WsMessage`, by its kind.
pub data WsMessage (p : Platform) : Type 0 where
  response : ℕ → String → Body p → WsMessage p
  event : String → EventCategory → Body p → WsMessage p
  simple_request : ℕ → String → WsMessage p

-- A message to the Home Assistant client actor.
pub data HaMsg (p : Platform) : Type 0 where
  close : HaMsg p
  set_remote_id : String → HaMsg p
  subscribed_entities : List String → HaMsg p
  get_states : String → List String → HaMsg p
  get_available_entities : String → HaMsg p
  call_service : EntityCommand p → HaMsg p

-- A message of the controller to itself, by `notify` or `notify_later`.
pub data SelfMsg : Type 0 where
  connect_msg disconnect_msg : SelfMsg
  abort_driver_setup_msg : String → Bool → SelfMsg
  request_options_msg request_expert_options_msg : String → SelfMsg
  finish_setup_flow_msg : String → Option IntegrationSetupError → SelfMsg

-- What has left the controller: a message to the actor of a session, or to a client actor.
pub data Sent (p : Platform) : Type 0 where
  to_r2 : ℕ → WsMessage p → Sent p
  to_ha : ℕ → HaMsg p → Sent p
