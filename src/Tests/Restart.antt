-- ===== src/Tests/Restart.antt =====
-- A setup flow that runs into its timeout and is started again, on the test platform.
use integration_home_assista.Prelude.{[], ◌∷◌, ◌≡◌, refl, true}
use integration_home_assista.Prelude.Dict.{lookup, modify}
use integration_home_assista.Settings.{get_url, get_token, get_token_value, get_ext_url}
use integration_home_assista.Controller.Machine.{setup_flow, transition, consume}
use integration_home_assista.Controller.Messages.{abort_driver_setup_msg, request_options_msg}
use integration_home_assista.Controller.State.{Controller, Timer, new, without, cancelled}
use integration_home_assista.Controller.Core.{
  sm_consume, set_device_state, broadcast_device_state, send_device_states, setup_timeout_secs,
  cancel_setup_timer,
}
use integration_home_assista.Controller.Connection.{disconnect, cancel_reconnect, close_client}
use integration_home_assista.Controller.Setup.{setup_driver_msg, begin_setup, abort_driver_setup}
use integration_home_assista.Controller.Setup.Input.{parse_value}
use integration_home_assista.Controller.Step.{
  Reach, start, next, external, fires, handle, handle_self, setup_driver_message,
}
use integration_home_assista.Controller.SetupTimer.Restart.{setup_driver_msg_untimed}
use integration_home_assista.Tests.Fixture.{plain, home, no_file, world, driver, codec}

abbrev in_flow : Controller plain
in_flow = (setup_driver_msg world "r" driver (new no_file home tt)).1

abbrev expiring : Timer
expiring = record { handle = 0; delay = 300000; message = abort_driver_setup_msg "r" true }

abbrev asking : Timer
asking = record { handle = 1; delay = 100; message = request_options_msg "r" }

abbrev expired : Controller plain
expired = abort_driver_setup world "r" true (record in_flow { timers = without 0 in_flow.timers })

expired_reached : Reach codec expired
unfolding handle handle_self setup_driver_msg begin_setup new sm_consume transition consume
    disconnect cancel_reconnect close_client set_device_state broadcast_device_state
    send_device_states setup_timeout_secs cancelled parse_value lookup get_url get_token
    get_token_value get_ext_url modify
expired_reached =
    next (next (start no_file home tt) (external world (setup_driver_message "r" driver) refl))
      (fires world (asking ∷ []) [] expiring refl refl)

setup_driver_msg_untimed_example :
    (setup_driver_msg world "r" driver expired).1.machine ≡ setup_flow
unfolding abort_driver_setup setup_driver_msg begin_setup new sm_consume transition consume
    disconnect cancel_reconnect close_client set_device_state broadcast_device_state
    send_device_states setup_timeout_secs cancelled parse_value lookup get_url get_token
    get_token_value get_ext_url cancel_setup_timer modify
setup_driver_msg_untimed_example =
    (setup_driver_msg_untimed world "r" driver expired expired_reached refl).0
