-- ===== src/Controller/Sessions/Flow.antt =====
-- The handlers of the setup flow leave the controller with the sessions it knew.
use integration_home_assista.Prelude.{
  String, Bool, true, false, Option, none, some, ◌≡◌, refl, arith, ◌∙◌, inl, inr,
}
use integration_home_assista.Prelude.Dict.{lookup, modify}
use integration_home_assista.Platform.{Platform}
use integration_home_assista.Settings.{HomeAssistantSettings}
use integration_home_assista.Errors.{Result, ok, err, Result-cases}
use integration_home_assista.Api.{SetupDriver, IntegrationSetup, IntegrationSetupError}
use integration_home_assista.Controller.Machine.{
  OperationModeInput, setup_driver_request, setup_user_data, request_user_input,
  configuration_available, abort_setup,
}
use integration_home_assista.Controller.Messages.{WsMessage}
use integration_home_assista.Controller.State.{World, Controller, R2Session}
use integration_home_assista.Controller.Core.{sm_consume, cancel_setup_timer}
use integration_home_assista.Controller.Setup.{
  set_reconfiguring, begin_setup, setup_driver_msg, apply_settings, read_setup,
  set_driver_user_data_msg, send_page, request_options, request_expert_options, finish_input,
  finish_accepted, finish_setup_flow, resume_operation, abort_driver_setup,
}
use integration_home_assista.Controller.Sessions.Kept.{
  sessions-send_r2_msg, sessions-sm_consume, sessions-disconnect,
}
use integration_home_assista.Controller.Sessions.Known.{knows, is_some-modify}

module _ {p : Platform} (w : World p) (key : String) where
  knows-begin_setup :
      (id : String) (d : SetupDriver) (c : Controller p)
      → knows key (begin_setup w id d c) ≡ knows key c
  unfolding begin_setup
  knows-begin_setup id d c =
      let noted = modify id (set_reconfiguring d.reconfigure) c.sessions in
      ground (
        arith,
        sessions-disconnect w (record c { sessions = noted }),
        is_some-modify key id (set_reconfiguring d.reconfigure) c.sessions,
      )

  pub knows-setup_driver_msg :
      (id : String) (d : SetupDriver) (c : Controller p)
      → knows key (setup_driver_msg w id d c).1 ≡ knows key c
  unfolding setup_driver_msg
  knows-setup_driver_msg id d c = ground (
    arith,
    sessions-sm_consume w id setup_driver_request c,
    knows-begin_setup id d (sm_consume w id setup_driver_request c).1,
  )

  knows-apply_settings :
      (id : String) (cfg : HomeAssistantSettings p) (c : Controller p)
      → knows key (apply_settings w id cfg c).1 ≡ knows key c
  unfolding apply_settings
  knows-apply_settings id cfg c = ground arith

  pub knows-set_driver_user_data_msg :
      (id : String) (d : IntegrationSetup) (c : Controller p)
      → knows key (set_driver_user_data_msg w id d c).1 ≡ knows key c
  unfolding set_driver_user_data_msg
  knows-set_driver_user_data_msg id d c =
      let c' = (sm_consume w id setup_user_data c).1 in
      let kept = sessions-sm_consume w id setup_user_data c in
      elim (Result-cases (sm_consume w id setup_user_data c).0) [
        | inr (_, q) ↦ rw (q, set_driver_user_data_msg, kept)
        | inl (_, q) ↦ elim (Result-cases (read_setup w d c'.hass)) [
          | inr (_, r) ↦ rw (q, r, set_driver_user_data_msg, kept)
          | inl (cfg, r) ↦
              rw (q, r, set_driver_user_data_msg)
                (ground (arith, kept, knows-apply_settings id cfg c'))
        ]
      ]

  knows-send_page :
      (id : String) (page : Controller p → WsMessage p) (r : Result (Unit {0}) × Controller p)
      → knows key (send_page w id page r) ≡ knows key r.1
  unfolding send_page
  knows-send_page id page (ok _, c) = ground (arith, sessions-send_r2_msg w (page c) id c)
  knows-send_page id page (err _, c) = refl

  pub knows-request_options :
      (id : String) (c : Controller p) → knows key (request_options w id c) ≡ knows key c
  unfolding request_options
  knows-request_options id c =
      knows-send_page id _ _ ∙ ground (arith, sessions-sm_consume w id request_user_input c)

  pub knows-request_expert_options :
      (id : String) (c : Controller p) → knows key (request_expert_options w id c) ≡ knows key c
  unfolding request_expert_options
  knows-request_expert_options id c =
      knows-send_page id _ _ ∙ ground (arith, sessions-sm_consume w id request_user_input c)

  pub knows-finish_setup_flow :
      (id : String) (e : Option IntegrationSetupError) (c : Controller p)
      → knows key (finish_setup_flow w id e c) ≡ knows key c
  unfolding finish_setup_flow finish_accepted
  knows-finish_setup_flow id e c =
      let c' = (sm_consume w id (finish_input e) c).1 in
      ground (
        arith,
        sessions-sm_consume w id (finish_input e) c,
        is_some-modify key id (set_reconfiguring none) c'.sessions,
      )

  knows-resume_operation :
      (id : String) (o : Option R2Session) (c : Controller p)
      → knows key (resume_operation w id o c) ≡ knows key c
  unfolding resume_operation
  knows-resume_operation id none c = refl
  knows-resume_operation id (some s) c =
      let noted = modify id (set_reconfiguring none) c.sessions in
      ground (
        arith,
        sessions-sm_consume w id configuration_available (record c { sessions = noted }),
        is_some-modify key id (set_reconfiguring none) c.sessions,
      )

  pub knows-abort_driver_setup :
      (id : String) (expired : Bool) (c : Controller p)
      → knows key (abort_driver_setup w id expired c) ≡ knows key c
  unfolding abort_driver_setup cancel_setup_timer
  knows-abort_driver_setup id true c =
      ground (arith, sessions-sm_consume w id OperationModeInput.setup_error c)
  knows-abort_driver_setup id false c =
      let c' = (sm_consume w id abort_setup c).1 in
      ground (
        arith,
        sessions-sm_consume w id abort_setup c,
        knows-resume_operation id (lookup id c'.sessions) c',
      )
