-- ===== src/Service/Call.antt =====
-- src/client/service/mod.rs: `Handler<CallService>` of the Home Assistant client.
pub mod Answers
use Prim.Native.String
use integration_home_assista.Prelude.{
  ℕ, ◌+◌, ◌%◌, ◌^◌, String, Bool, true, false, Option, none, some, if◌then◌else◌, split_once_dot,
}
use integration_home_assista.Json.{Value}
use integration_home_assista.Platform.{Platform}
use integration_home_assista.Errors.{Result, ok, err, ServiceError, bad_request, not_connected}
use integration_home_assista.Api.{
  EntityType, button, switch, climate, cover, light, media_player, remote, sensor, activity, macro,
  ir_emitter, EntityCommand,
}
use integration_home_assista.Service.Commands.{CommandNames, ServiceCall}
use integration_home_assista.Service.Light.{handle_light}
use integration_home_assista.Service.Climate.{handle_climate}
use integration_home_assista.Service.Devices.{
  handle_cover, handle_switch, handle_button, handle_remote,
}
use integration_home_assista.Service.MediaPlayer.{handle_media_player}

-- `CallServiceMsg` of src/client/model.rs, with its target.
pub record CallServiceMsg (p : Platform) : Type 0 where
  pub id : ℕ
  pub domain : String
  pub service : String
  pub service_data : Option (Value p.F64)
  pub entity_id : String

-- What the handler leaves: its answer, the last message id, what was written to the socket, and
-- whether the actor stops.
pub record Called (p : Platform) : Type 0 where
  pub answer : Result (Unit {0})
  pub ws_id : ℕ
  pub written : Option (CallServiceMsg p)
  pub stopped : Bool

abbrev internal_entity : CommandNames → EntityType → ServiceError
internal_entity names t =
    bad_request (String.◌++◌ (names.entity_type_text t) " is an internal remote-core entity")

module _ {p : Platform} (names : CommandNames) (lower : String → String) where
  -- The conversion for the type of the entity; `none` is a panic.
  unfoldable pub convert : EntityType → EntityCommand p → Option (Result (ServiceCall p))
  convert button msg = handle_button p names msg
  convert switch msg = some (handle_switch p names msg)
  convert climate msg = some (handle_climate p names msg)
  convert cover msg = some (handle_cover p names msg)
  convert light msg = some (handle_light names msg)
  convert media_player msg = some (handle_media_player lower names msg)
  convert remote msg = some (handle_remote p names msg)
  convert sensor msg =
      some (err (bad_request "Sensor doesn't support sending commands to! Ignoring call"))
  convert activity msg = some (err (internal_entity names activity))
  convert macro msg = some (err (internal_entity names macro))
  convert ir_emitter msg = some (err (bad_request "IR-emitter not supported! Ignoring call"))

-- `send_json`: whether the socket takes the message.
unfoldable pub write_call : {p : Platform} → Bool → CallServiceMsg p → Called p
write_call true m = record { answer = ok tt; ws_id = m.id; written = some m; stopped = false }
write_call false m = record {
  answer = err not_connected;
  ws_id = m.id;
  written = none;
  stopped = true;
}

module _ {p : Platform} where
  abbrev refuse : ServiceError → ℕ → Called p
  refuse e ws_id = record { answer = err e; ws_id = ws_id; written = none; stopped = false }

  -- The service of an entity, by the domain in front of the dot of its id.
  unfoldable pub call_entity :
      Bool → ℕ → EntityCommand p → ServiceCall p → Option (String × String) → Called p
  call_entity writes ws_id msg call none = refuse (bad_request "Invalid entity_id format") ws_id
  call_entity writes ws_id msg (service, service_data) (some (domain, _)) =
      write_call writes (record {
        id = (ws_id + 1) % 2 ^ 32;
        domain = domain;
        service = service;
        service_data = service_data;
        entity_id = msg.entity_id;
      })

  unfoldable pub call_result :
      Bool → ℕ → EntityCommand p → Option (Result (ServiceCall p)) → Option (Called p)
  call_result writes ws_id msg none = none
  call_result writes ws_id msg (some (err e)) = some (refuse e ws_id)
  call_result writes ws_id msg (some (ok call)) =
      some (call_entity writes ws_id msg call (split_once_dot msg.entity_id))

  -- `Handler<CallService>`; `none` is a panic.
  unfoldable pub call_service :
      CommandNames → (String → String) → Bool → ℕ → EntityCommand p → Option (Called p)
  call_service names lower writes ws_id msg =
      call_result writes ws_id msg (convert names lower msg.entity_type msg)
