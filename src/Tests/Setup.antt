-- ===== src/Tests/Setup.antt =====
-- The setup flow on the test platform.
use integration_home_assista.Prelude.{arith, true, false, [], ◌∷◌, ◌≡◌, refl, none, some}
use integration_home_assista.Prelude.Dict.{lookup}
use integration_home_assista.Errors.{ok}
use integration_home_assista.Api.{IntegrationSetup, input_values, timeout}
use integration_home_assista.Controller.Machine.{
  OperationModeState, running, setup_flow, wait_setup_user_data,
}
use integration_home_assista.Controller.Messages.{connect_msg, finish_setup_flow_msg}
use integration_home_assista.Controller.State.{new, cancelled, without}
use integration_home_assista.Settings.{get_url, get_token, get_token_value}
use integration_home_assista.Controller.Setup.{
  setup_driver_msg, set_driver_user_data_msg, abort_driver_setup, read_setup,
}
use integration_home_assista.Controller.Setup.Input.{
  read_values, read_url, read_token, read_connection, read_heartbeat, read_reconnect, parse_value,
}
use integration_home_assista.Controller.Step.{
  handle, setup_driver_message, Reach, start, next, external,
}
use integration_home_assista.Controller.SetupTimer.{SetupTimed}
use integration_home_assista.Controller.SetupTimer.Reachable.{Reach-SetupTimed}
use integration_home_assista.Controller.Setup.Flow.{
  abort_driver_setup_expired, abort_driver_setup_resumes, set_driver_user_data_msg_lem,
}
use integration_home_assista.Controller.Setup.Whole.{whole_setup, whole_setup_lem}
use integration_home_assista.Controller.Setup.Start.{
  setup_driver_msg_lem, page_timer, timeout_timer,
}
use integration_home_assista.Tests.Fixture.{
  home, no_file, world, driver, codec, remote, with_mode, idle,
}

-- A setup in which the user changes nothing.
abbrev unchanged : IntegrationSetup
unchanged = input_values []

unchanged_accepted : read_setup world unchanged home ≡ ok home
unfolding read_setup read_values read_url read_token read_connection read_heartbeat read_reconnect
    parse_value lookup
unchanged_accepted = refl

Reach-SetupTimed_example : SetupTimed (setup_driver_msg world "r" driver (new no_file home tt)).1
unfolding handle
Reach-SetupTimed_example =
    Reach-SetupTimed {codec = codec}
      (next (start no_file home tt) (external world (setup_driver_message "r" driver) refl))

whole_setup_lem_example :
    let d = whole_setup world "r" driver unchanged idle in
    (d.machine ≡ running)
    × (d.hass ≡ home)
    × (d.queue ≡ connect_msg ∷ [])
    × (d.setup_timeout ≡ none)
    × (Reach codec idle → Reach codec d)
whole_setup_lem_example =
    whole_setup_lem world codec "r" driver unchanged home idle refl unchanged_accepted refl

set_driver_user_data_msg_lem_example :
    (set_driver_user_data_msg world "r" unchanged (with_mode wait_setup_user_data)).1.machine
    ≡ setup_flow
set_driver_user_data_msg_lem_example =
    ((set_driver_user_data_msg_lem world "r" unchanged (with_mode wait_setup_user_data)).0 home refl
      unchanged_accepted refl).2

abort_driver_setup_expired_example :
    abort_driver_setup world "r" true (record (with_mode setup_flow) { setup_timeout = some 3 })
    ≡ record (with_mode OperationModeState.setup_error) {
      queue = finish_setup_flow_msg "r" (some timeout) ∷ [];
    }
unfolding cancelled without
abort_driver_setup_expired_example =
    (abort_driver_setup_expired world "r"
        (record (with_mode setup_flow) { setup_timeout = some 3 })).0
      refl

abort_driver_setup_resumes_example :
    ((abort_driver_setup world "r" false (with_mode setup_flow)).machine ≡ running)
    × ((abort_driver_setup world "r" false (with_mode setup_flow)).queue ≡ connect_msg ∷ [])
unfolding lookup get_url get_token get_token_value
abort_driver_setup_resumes_example =
    (abort_driver_setup_resumes world "r" remote (with_mode setup_flow) refl refl).2 refl

setup_driver_msg_lem_example :
    ((setup_driver_msg world "r" driver idle).1.setup_timeout ≡ some 0)
    × ((setup_driver_msg world "r" driver idle).1.timers
        ≡ page_timer world 1 "r" driver
          ∷ timeout_timer world 0 "r"
          ∷ cancelled none (cancelled none []))
setup_driver_msg_lem_example =
    (setup_driver_msg_lem world "r" driver idle (λ e. ground arith)).2 refl
