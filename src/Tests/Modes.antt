-- ===== src/Tests/Modes.antt =====
-- The operation mode and the requests, on the test platform.
use integration_home_assista.Prelude.{false, [], ◌∷◌, ◌≡◌, ◌≢◌, refl, none, some}
use integration_home_assista.Prelude.Dict.{lookup, modify}
use integration_home_assista.Errors.{ok, err, service_unavailable}
use integration_home_assista.Api.{
  R2Request, get_available_entities, entity_command, runtime_info, version,
}
use integration_home_assista.Controller.Machine.{
  running, setup_flow, wait_setup_user_data, connected, r2_request, request_user_input, transition,
}
use integration_home_assista.Controller.Messages.{response, available_entities_data}
use integration_home_assista.Controller.Sessions.{set_standby}
use integration_home_assista.Controller.Requests.{R2RequestMsg, ready, request_msg}
use integration_home_assista.Controller.Machine.Gate.{consume_all, consume_all_refused}
use integration_home_assista.Controller.Requests.Gate.{request_msg_refused}
use integration_home_assista.Controller.Requests.Stored.{request_msg_stored}
use integration_home_assista.Tests.Fixture.{plain, world, codec, remote, with_mode, idle}

abbrev request : R2Request → R2RequestMsg plain
request r = record { ws_id = "r"; req_id = 9; request = r; msg_data = none }

running-ne-waiting : wait_setup_user_data ≢ running
running-ne-waiting e = cc

runtime_info-ne-version : runtime_info ≢ version
runtime_info-ne-version e = cc

consume_all_refused_example :
    transition
      (consume_all (request_user_input ∷ connected ∷ r2_request ∷ []) setup_flow)
      r2_request
    ≡ none
consume_all_refused_example =
    (consume_all_refused (request_user_input ∷ connected ∷ r2_request ∷ []) setup_flow refl
      (refl, (refl, (refl, tt)))).1

request_msg_refused_example :
    request_msg codec world (request entity_command) (with_mode wait_setup_user_data) ≡ (
      ready (err (service_unavailable "Request cannot be handled: setup required")),
      record (with_mode wait_setup_user_data) {
        sessions = modify "r" (set_standby false) (("r", remote) ∷ []);
      },
    )
unfolding lookup
request_msg_refused_example =
    request_msg_refused codec world (request entity_command) remote (with_mode wait_setup_user_data)
      refl running-ne-waiting refl

request_msg_stored_example :
    (request_msg codec world
      (request get_available_entities)
      (record idle { subscribed_entity_ids = some [] })).0
    ≡ ready (ok (some (response 9 "available_entities" (available_entities_data []))))
unfolding lookup
request_msg_stored_example =
    (request_msg_stored codec world (request get_available_entities) remote []
      (record idle { subscribed_entity_ids = some [] }) refl refl refl refl refl).0
