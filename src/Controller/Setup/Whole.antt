-- ===== src/Controller/Setup/Whole.antt =====
-- A whole setup flow without errors, with the timers that it schedules.
use integration_home_assista.Prelude.{
  ℕ, false, String, [], ◌∷◌, ◌++◌, sym, ◌≡◌, ap, ◌∙◌, refl, none, arith, Bool-cases, inl, inr,
  or_else, parse_bool,
}
use integration_home_assista.Platform.{Platform}
use integration_home_assista.Settings.{HomeAssistantSettings}
use integration_home_assista.Errors.{ok}
use integration_home_assista.Api.{SetupDriver, IntegrationSetup, Codec}
use integration_home_assista.Controller.Machine.{
  running, setup_flow, wait_setup_user_data, setup_driver_request, transition,
}
use integration_home_assista.Controller.Messages.{connect_msg, finish_setup_flow_msg}
use integration_home_assista.Controller.State.{World, Controller, cancelled, without}
use integration_home_assista.Controller.Core.{sm_consume, send_r2_msg}
use integration_home_assista.Controller.SetupTimer.{is_in_setup}
use integration_home_assista.Controller.Setup.Input.{parse_value}
use integration_home_assista.Controller.Setup.{
  setup_driver_msg, request_options, request_expert_options, send_page, set_driver_user_data_msg,
  read_setup, apply_settings, finish_setup_flow, finish_accepted,
}
use mathlib.Core.Path.{subst}
use integration_home_assista.Controller.Step.Newest.{fire_first, fire_newest, fire_newest-Reach}
use integration_home_assista.Controller.Step.{
  handle_self, handle, Reach, next, external, setup_driver_message, user_data_message,
}
use integration_home_assista.Controller.Setup.Start.{page_timer, begin_keeps}

module _ {p : Platform} (w : World p) where
  started :
      (id : String) (data_ : SetupDriver) (c : Controller p)
      → is_in_setup c.machine ≡ false
      → let d = (setup_driver_msg w id data_ c).1 in
        let c' = (sm_consume w id setup_driver_request c).1 in
        (d.machine ≡ setup_flow)
        × (d.hass ≡ c.hass)
        × (d.queue ≡ c.queue)
        × (d.timers
            ≡ page_timer w c'.next_handle id data_ ∷ cancelled c'.reconnect_handle c'.timers)
  unfolding setup_driver_msg sm_consume transition
  started id data_ c h =
      ground (arith, begin_keeps w id data_ (sm_consume w id setup_driver_request c).1)

  abbrev IsAsked : Controller p → Controller p → Type 0
  IsAsked c d = (d.machine ≡ wait_setup_user_data) × (d.hass ≡ c.hass) × (d.queue ≡ c.queue)

  asked :
      (id : String) (c : Controller p) → c.machine ≡ setup_flow → IsAsked c (request_options w id c)
  unfolding request_options send_page sm_consume transition send_r2_msg
  asked id c h = ground arith

  asked_expert :
      (id : String) (c : Controller p)
      → c.machine ≡ setup_flow
      → IsAsked c (request_expert_options w id c)
  unfolding request_expert_options send_page sm_consume transition send_r2_msg
  asked_expert id c h = ground arith

  opened :
      (n : ℕ) (id : String) (driver : SetupDriver) (c : Controller p)
      → c.machine ≡ setup_flow
      → IsAsked c (handle_self w (page_timer w n id driver).message c)
  unfolding handle_self
  opened n id driver c h =
      elim (Bool-cases (or_else (parse_value parse_bool driver.setup_data "expert") false)) [
        | inl e ↦ rw (e, handle_self) (asked_expert id c h)
        | inr e ↦ rw (e, handle_self) (asked id c h)
      ]

  answered :
      (id : String) (data_ : IntegrationSetup) (cfg : HomeAssistantSettings p) (c : Controller p)
      → c.machine ≡ wait_setup_user_data
      → read_setup w data_ c.hass ≡ ok cfg
      → w.save_error cfg ≡ none
      → let d = (set_driver_user_data_msg w id data_ c).1 in
        (d.machine ≡ setup_flow)
        × (d.hass ≡ cfg)
        × (d.queue ≡ c.queue)
        × (d.timers
            ≡ record {
              handle = c.next_handle;
              delay = 100;
              message = finish_setup_flow_msg id none;
            }
              ∷ c.timers)
  unfolding set_driver_user_data_msg sm_consume transition apply_settings
  answered id data_ cfg c h r e = ground arith

  finished :
      (id : String) (c : Controller p)
      → c.machine ≡ setup_flow
      → let d = finish_setup_flow w id none c in
        (d.machine ≡ running)
        × (d.hass ≡ c.hass)
        × (d.queue ≡ c.queue ++ connect_msg ∷ [])
        × (d.setup_timeout ≡ none)
  unfolding finish_setup_flow finish_accepted sm_consume transition
  finished id c h = ground arith

  -- A flow in which the actor handles two messages of a remote, and after each the timer that the
  -- message scheduled: the setup request, the page, the answer, and the end.
  abbrev pub whole_setup : String → SetupDriver → IntegrationSetup → Controller p → Controller p
  whole_setup id driver data_ c =
      let asking = fire_newest w (setup_driver_msg w id driver c).1 in
      fire_newest w (set_driver_user_data_msg w id data_ asking).1

  page_opened :
      (id : String) (driver : SetupDriver) (c : Controller p)
      → is_in_setup c.machine ≡ false
      → IsAsked c (fire_newest w (setup_driver_msg w id driver c).1)
  page_opened id driver c h =
      let d = (setup_driver_msg w id driver c).1 in
      let (m, s, q, ts) = started id driver c h in
      let c' = (sm_consume w id setup_driver_request c).1 in
      let (m', s', q') =
        opened c'.next_handle id driver (record d { timers = without c'.next_handle d.timers }) m in
      let fired = ap (λ x. fire_first w x d) ts in
      subst (IsAsked c) (sym fired) (m', s' ∙ s, q' ∙ q)

  ended_lem :
      (id : String) (data_ : IntegrationSetup) (cfg : HomeAssistantSettings p) (c : Controller p)
      → c.machine ≡ wait_setup_user_data
      → read_setup w data_ c.hass ≡ ok cfg
      → w.save_error cfg ≡ none
      → let d = fire_newest w (set_driver_user_data_msg w id data_ c).1 in
        (d.machine ≡ running)
        × (d.hass ≡ cfg)
        × (d.queue ≡ c.queue ++ connect_msg ∷ [])
        × (d.setup_timeout ≡ none)
  unfolding handle_self
  ended_lem id data_ cfg c h r e =
      let d = (set_driver_user_data_msg w id data_ c).1 in
      let (m, s, q, ts) = answered id data_ cfg c h r e in
      let (m', s', q', t) = finished id (record d { timers = without c.next_handle d.timers }) m in
      subst
        (λ x.
          (x.machine ≡ running)
          × (x.hass ≡ cfg)
          × (x.queue ≡ c.queue ++ connect_msg ∷ [])
          × (x.setup_timeout ≡ none))
        (sym (ap (λ x. fire_first w x d) ts))
        (m', s' ∙ s, q' ∙ ap (λ l. l ++ connect_msg ∷ []) q, t)

  -- A setup flow that starts outside of a setup flow and runs without errors: the request to set up
  -- the driver, the page when its timer fires, an answer with valid values that can be saved, and the
  -- end of the flow when the timer of that fires. The driver is then in normal operation with the new
  -- settings, has queued one request to connect, and keeps no handle of a setup timer. From a
  -- reachable state this is a run of the actor.
  pub whole_setup_lem :
      (codec : Codec p) (id : String) (driver : SetupDriver) (data_ : IntegrationSetup)
      (cfg : HomeAssistantSettings p) (c : Controller p)
      → is_in_setup c.machine ≡ false
      → read_setup w data_ c.hass ≡ ok cfg
      → w.save_error cfg ≡ none
      → let d = whole_setup id driver data_ c in
        (d.machine ≡ running)
        × (d.hass ≡ cfg)
        × (d.queue ≡ c.queue ++ connect_msg ∷ [])
        × (d.setup_timeout ≡ none)
        × (Reach codec c → Reach codec d)
  unfolding handle
  whole_setup_lem codec id driver data_ cfg c h r e =
      let (m, s, q) = page_opened id driver c h in
      let asking = fire_newest w (setup_driver_msg w id driver c).1 in
      let (m', s', q', t) = ended_lem id data_ cfg asking m (rw s r) e in
      (
        m',
        s',
        q' ∙ ap (λ l. l ++ connect_msg ∷ []) q,
        t,
        λ reached. fire_newest-Reach w _ (
            next
              (fire_newest-Reach w _
                (next reached (external w (setup_driver_message id driver) refl)))
              (external w (user_data_message id data_) refl)),
      )
