-- ===== src/Controller/Setup/Start.antt =====
-- The start of a setup flow.
use integration_home_assista.Prelude.{
  ℕ, suc, ◌*◌, Bool, true, false, String, List, ◌∷◌, Option, ◌≡◌, ◌≢◌, refl, none, some, arith,
  Bool-cases, inl, inr, or_else, parse_bool, if◌then◌else◌,
}
use integration_home_assista.Prelude.Dict.{modify}
use integration_home_assista.Platform.{Platform}
use integration_home_assista.Errors.{ok, err, bad_request}
use integration_home_assista.Api.{SetupDriver, disconnected}
use integration_home_assista.Controller.Machine.{
  OperationModeState, running, require_setup, setup_flow, setup_driver_request, transition,
}
use integration_home_assista.Controller.Messages.{
  close, Sent, to_ha, abort_driver_setup_msg, request_options_msg, request_expert_options_msg,
}
use integration_home_assista.Controller.State.{World, Controller, Timer, cancelled, without}
use integration_home_assista.Controller.Core.{sm_consume, setup_timeout_secs, set_device_state}
use integration_home_assista.Controller.Frames.{set_device_state-KeepsFields}
use integration_home_assista.Controller.Connection.{disconnect, cancel_reconnect, close_client}
use integration_home_assista.Controller.SetupTimer.{is_in_setup}
use integration_home_assista.Controller.Setup.Input.{parse_value}
use integration_home_assista.Controller.Setup.{setup_driver_msg, begin_setup, set_reconfiguring}
use integration_home_assista.Controller.Step.{handle}

module _ {p : Platform} (w : World p) where
  -- The states in which a setup request starts the timer.
  abbrev starts_timer : OperationModeState → Bool
  starts_timer require_setup = true
  starts_timer running = true
  starts_timer _ = false

  -- The timer of the setup page that the request asks for.
  abbrev pub page_timer : ℕ → String → SetupDriver → Timer
  page_timer handle id data_ = record {
    handle = handle;
    delay = 100;
    message =
        if or_else (parse_value parse_bool data_.setup_data "expert") false
        then request_expert_options_msg id
        else request_options_msg id;
  }

  -- The setup timeout, in milliseconds.
  abbrev pub timeout_timer : ℕ → String → Timer
  timeout_timer handle id = record {
    handle = handle;
    delay = setup_timeout_secs w.setup_timeout_env * 1000;
    message = abort_driver_setup_msg id true;
  }

  disconnect_keeps :
      (c : Controller p)
      → let d = disconnect w c in
        (d.machine ≡ c.machine)
        × (d.setup_timeout ≡ c.setup_timeout)
        × (d.ha_client ≡ none)
        × (d.hass ≡ c.hass)
        × (d.queue ≡ c.queue)
        × (d.timers ≡ cancelled c.reconnect_handle c.timers)
        × (d.next_handle ≡ c.next_handle)
        × ((addr : ℕ)
            → c.ha_client ≡ some addr
            → (earlier : List (Sent p)) × (d.sent ≡ to_ha addr close ∷ earlier))
  unfolding disconnect cancel_reconnect close_client
  disconnect_keeps c =
      let kept = set_device_state-KeepsFields w disconnected c in
      (
        ground (arith, kept),
        ground (arith, kept),
        refl,
        ground (arith, kept),
        ground (arith, kept),
        ground (arith, kept),
        ground (arith, kept),
        λ addr q. ((set_device_state w disconnected c).sent, ground (arith, kept)),
      )

  pub begin_keeps :
      (id : String) (data_ : SetupDriver) (c : Controller p)
      → let d = begin_setup w id data_ c in
        (d.machine ≡ c.machine)
        × (d.setup_timeout ≡ c.setup_timeout)
        × (d.ha_client ≡ none)
        × (d.hass ≡ c.hass)
        × (d.queue ≡ c.queue)
        × (d.timers ≡ page_timer c.next_handle id data_ ∷ cancelled c.reconnect_handle c.timers)
        × ((addr : ℕ)
            → c.ha_client ≡ some addr
            → (earlier : List (Sent p)) × (d.sent ≡ to_ha addr close ∷ earlier))
  unfolding begin_setup
  begin_keeps id data_ c₀ =
      let c = record c₀ {
        sessions = modify id (set_reconfiguring data_.reconfigure) c₀.sessions;
      } in
      let (m, t, h, s, q, ts, n, closes) = disconnect_keeps c in
      elim (Bool-cases (or_else (parse_value parse_bool data_.setup_data "expert") false)) [
        | inl e ↦ rw (e, begin_setup) (m, t, h, s, q, ground arith, closes)
        | inr e ↦ rw (e, begin_setup) (m, t, h, s, q, ground arith, closes)
      ]

  cancelled-other :
      (o : Option ℕ) (t : Timer) (ts : List Timer)
      → o ≢ some t.handle
      → cancelled o (t ∷ ts) ≡ t ∷ cancelled o ts
  unfolding cancelled without
  cancelled-other none t ts n = refl
  cancelled-other (some h) t ts n = ground arith

  -- A setup request is refused in a setup flow, and changes nothing. Otherwise it is accepted: the
  -- flow starts without a connection to Home Assistant, and a client that there was is told to close.
  -- From required setup and from normal operation the timeout of the flow is scheduled, as the new
  -- setup timer, and after it the page, where the pending retry does not have the next handle; the
  -- old setup timer and the retry are cancelled. From the error state only the page is scheduled, and
  -- the controller keeps the setup timer that it had.
  pub setup_driver_msg_lem :
      (id : String) (data_ : SetupDriver) (c : Controller p)
      → c.reconnect_handle ≢ some c.next_handle
      → let (r, d) = setup_driver_msg w id data_ c in
        (is_in_setup c.machine ≡ true
          → (r ≡ err (bad_request "Cannot start driver setup. Please abort setup first."))
            × (d ≡ c))
        × (is_in_setup c.machine ≡ false
            → (r ≡ ok tt)
              × (d.machine ≡ setup_flow)
              × (d.ha_client ≡ none)
              × ((addr : ℕ)
                  → c.ha_client ≡ some addr
                  → (earlier : List (Sent p)) × (d.sent ≡ to_ha addr close ∷ earlier)))
        × (starts_timer c.machine ≡ true
            → (d.setup_timeout ≡ some c.next_handle)
              × (d.timers
                  ≡ page_timer (suc c.next_handle) id data_
                    ∷ timeout_timer c.next_handle id
                    ∷ cancelled c.reconnect_handle (cancelled c.setup_timeout c.timers)))
        × (c.machine ≡ OperationModeState.setup_error
            → (d.setup_timeout ≡ c.setup_timeout)
              × (d.timers
                  ≡ page_timer c.next_handle id data_ ∷ cancelled c.reconnect_handle c.timers))
  unfolding setup_driver_msg sm_consume transition
  setup_driver_msg_lem id data_ c other =
      let c' = (sm_consume w id setup_driver_request c).1 in
      let (m, t, h, s, q, ts, closes) = begin_keeps id data_ c' in
      let kept =
        cancelled-other c.reconnect_handle (timeout_timer c.next_handle id)
          (cancelled c.setup_timeout c.timers) other in
      (
        λ e. ground arith,
        λ e. (
          ground arith,
          ground (arith, m),
          ground (arith, h),
          λ addr k.
              let (earlier, q') = closes addr (ground (arith, k)) in (earlier, ground (arith, q')),
        ),
        λ e. (ground (arith, t), ground (arith, ts, kept)),
        λ e. (ground (arith, t), ground (arith, ts)),
      )

  -- From the error state a setup request starts a flow and leaves the setup timer as it is.
  pub restarted :
      (id : String) (data_ : SetupDriver) (c : Controller p)
      → c.machine ≡ OperationModeState.setup_error
      → let d = (setup_driver_msg w id data_ c).1 in
        (d.machine ≡ setup_flow) × (d.setup_timeout ≡ c.setup_timeout)
  unfolding setup_driver_msg sm_consume transition
  restarted id data_ c h =
      ground (arith, begin_keeps id data_ (sm_consume w id setup_driver_request c).1)
