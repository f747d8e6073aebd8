-- ===== src/Tests/Services.antt =====
-- The service calls on the test platform.
use integration_home_assista.Prelude.{ℕ, String, true, false, ◌≡◌, refl, none, some, split_once_dot}
use integration_home_assista.Json.{Fields, field, end, uint}
use integration_home_assista.Errors.{ok}
use integration_home_assista.Api.{EntityCommand, EntityType, switch}
use integration_home_assista.Service.Commands.{CommandNames, SwitchCommand, push, cmd_from_str}
use integration_home_assista.Service.Devices.{handle_switch, switch_call}
use integration_home_assista.Service.Call.{
  Called, CallServiceMsg, convert, call_service, call_result, call_entity, write_call,
}
use integration_home_assista.Service.Call.Answers.{call_service_lem}
use integration_home_assista.Tests.Fixture.{plain}

abbrev pub names : CommandNames
names = record {
  light = λ s. none;
  switch = λ s. some SwitchCommand.on;
  cover = λ s. none;
  button = λ s. some push;
  climate = λ s. none;
  remote = λ s. none;
  media_player = λ s. none;
  variants = "";
  entity_type_text = λ t. "";
}

abbrev command : EntityType → String → EntityCommand plain
command entity_type entity_id = record {
  device_id = none;
  entity_type = entity_type;
  entity_id = entity_id;
  cmd_id = "on";
  params = none;
}

abbrev pub same : String → String
same s = s

abbrev turn_on : CallServiceMsg plain
turn_on = record {
  id = 6;
  domain = "switch";
  service = "turn_on";
  service_data = none;
  entity_id = "switch.a";
}

abbrev done : Called plain
done = record { answer = ok tt; ws_id = 6; written = some turn_on; stopped = false }

call_service_lem_example : done.answer ≡ ok tt
unfolding call_service call_result call_entity write_call convert handle_switch switch_call
    cmd_from_str split_once_dot
call_service_lem_example =
    ((call_service_lem names same true 5 (command switch "switch.a") done refl).0 turn_on refl).0

abbrev params : Fields ℕ
params = field "brightness" (uint 200) (field "color_temperature" (uint 0) end)
