-- ===== src/Controller/Setup/Flow.antt =====
-- What the handlers of the setup flow guarantee: the timer, the settings, and the way back to normal
-- operation.
use integration_home_assista.Prelude.{
  true, false, String, [], ◌∷◌, ◌++◌, ◌≡◌, ◌≢◌, none, some, arith, not, ◌&&◌, is_empty,
}
use integration_home_assista.Prelude.Dict.{lookup}
use integration_home_assista.Platform.{Platform}
use integration_home_assista.Settings.{HomeAssistantSettings, get_url, get_token}
use integration_home_assista.Errors.{ok, err, bad_request}
use integration_home_assista.Api.{IntegrationSetup, timeout}
use integration_home_assista.Controller.Machine.{
  OperationModeState, running, require_setup, setup_flow, wait_setup_user_data, transition,
}
use integration_home_assista.Controller.Messages.{connect_msg, finish_setup_flow_msg}
use integration_home_assista.Controller.State.{World, Controller, R2Session, cancelled}
use integration_home_assista.Controller.Core.{sm_consume, cancel_setup_timer}
use integration_home_assista.Controller.SetupTimer.{is_in_setup}
use integration_home_assista.Controller.Setup.{
  set_driver_user_data_msg, read_setup, apply_settings, abort_driver_setup, resume_operation,
  is_true,
}

module _ {p : Platform} (w : World p) where
  -- When the setup timer fires in an active setup flow, the mode becomes the error state, the timer
  -- and its handle are gone, and the message that ends the flow with a timeout is queued. In normal
  -- operation and where a setup is required nothing happens.
  pub abort_driver_setup_expired :
      (id : String) (c : Controller p)
      → (is_in_setup c.machine ≡ true
          → abort_driver_setup w id true c ≡ record c {
            machine = OperationModeState.setup_error;
            timers = cancelled c.setup_timeout c.timers;
            setup_timeout = none;
            queue = c.queue ++ finish_setup_flow_msg id (some timeout) ∷ [];
          })
        × (c.machine ≡ running → abort_driver_setup w id true c ≡ c)
        × (c.machine ≡ require_setup → abort_driver_setup w id true c ≡ c)
  unfolding abort_driver_setup sm_consume transition cancel_setup_timer cancelled
  abort_driver_setup_expired id c = ground arith

  -- The user aborts an active setup flow: the timer is cancelled in any case. Where the remote was
  -- reconfiguring a driver whose settings name a host and a token, the driver goes back to normal
  -- operation and connects again, else it requires a setup and does not connect.
  pub abort_driver_setup_resumes :
      (id : String) (s : R2Session) (c : Controller p)
      → is_in_setup c.machine ≡ true
      → lookup id c.sessions ≡ some s
      → let configured =
          p.has_host (get_url w.token_file c.hass)
          && not (is_empty (get_token w.token_file c.hass)) in
        let d = abort_driver_setup w id false c in
        (d.setup_timeout ≡ none)
        × (d.timers ≡ cancelled c.setup_timeout c.timers)
        × ((is_true s.reconfiguring && configured) ≡ true
            → (d.machine ≡ running) × (d.queue ≡ c.queue ++ connect_msg ∷ []))
        × ((is_true s.reconfiguring && configured) ≡ false
            → (d.machine ≡ require_setup) × (d.queue ≡ c.queue))
  unfolding abort_driver_setup sm_consume transition cancel_setup_timer cancelled resume_operation
  abort_driver_setup_resumes id s c h e = ground arith

  -- The answer of the user to a setup page. Where the driver waits for it, the values are valid and
  -- the new settings can be saved, they are in effect afterwards, and the end of the flow is
  -- scheduled. Where the handler does not succeed, the settings and the pending timers are what
  -- they were. Where the driver does not wait for an answer, it is refused and nothing changes.
  pub set_driver_user_data_msg_lem :
      (id : String) (data_ : IntegrationSetup) (c : Controller p)
      → let (r, d) = set_driver_user_data_msg w id data_ c in
        ((cfg : HomeAssistantSettings p)
          → c.machine ≡ wait_setup_user_data
          → read_setup w data_ c.hass ≡ ok cfg
          → w.save_error cfg ≡ none
          → (r ≡ ok tt)
            × (d.hass ≡ cfg)
            × (d.machine ≡ setup_flow)
            × (d.timers
                ≡ record {
                  handle = c.next_handle;
                  delay = 100;
                  message = finish_setup_flow_msg id none;
                }
                  ∷ c.timers))
        × (r ≢ ok tt → (d.hass ≡ c.hass) × (d.timers ≡ c.timers))
        × (c.machine ≢ wait_setup_user_data
            → (r ≡ err (bad_request "Not waiting for driver user data. Please restart setup."))
              × (d ≡ c))
  unfolding set_driver_user_data_msg sm_consume transition apply_settings
  set_driver_user_data_msg_lem id data_ c = ground arith
