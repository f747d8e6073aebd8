-- ===== src/Controller/Setup.antt =====
-- src/controller/handler/setup.rs: the driver setup flow.
pub mod Input
pub mod Start
pub mod Whole
pub mod Flow
use Prim.Native.String
use integration_home_assista.Prelude.{
  ℕ, String, Bool, true, false, Option, none, some, List, [], ◌∷◌, ◌&&◌, not, if◌then◌else◌,
  is_empty, parse_bool, or_else,
}
use integration_home_assista.Prelude.Dict.{Dict, lookup, modify}
use integration_home_assista.Platform.{Platform}
use integration_home_assista.Settings.{
  HomeAssistantSettings, get_url, get_token, has_external_url_and_token,
}
use integration_home_assista.Errors.{Result, ok, err, bad_request, internal_server_error, is_ok}
use integration_home_assista.Api.{
  SetupDriver, IntegrationSetup, input_values, other_setup, IntegrationSetupError, timeout,
  IntegrationSetupState, setup_ok, setup_failed, device,
}
use integration_home_assista.Controller.Machine.{
  OperationModeState, OperationModeInput, setup_driver_request, setup_user_data, request_user_input,
  successful, abort_setup, configuration_available, require_setup,
}
use integration_home_assista.Controller.Messages.{
  WsMessage, event, user_input, info_label, url_label, url_text, token_password, checkbox, number,
  factor, setup_stop, connect_msg, request_options_msg, request_expert_options_msg,
  finish_setup_flow_msg,
}
use integration_home_assista.Controller.State.{
  R2Session, World, Controller, finish_future, notify, notify_later, spawn,
}
use integration_home_assista.Controller.Core.{sm_consume, send_r2_msg, cancel_setup_timer}
use integration_home_assista.Controller.Connection.{disconnect}
use integration_home_assista.Controller.Entities.{is_running}
use Input.{parse_value, read_values}

abbrev pub set_reconfiguring : Option Bool → R2Session → R2Session
set_reconfiguring b s = record s { reconfiguring = b }

abbrev pub is_require_setup : OperationModeState → Bool
is_require_setup require_setup = true
is_require_setup _ = false

-- `reconfiguring == Some(true)`
abbrev pub is_true : Option Bool → Bool
is_true none = false
is_true (some b) = b

abbrev pub finish_input : Option IntegrationSetupError → OperationModeInput
finish_input none = successful
finish_input (some _) = OperationModeInput.setup_error

abbrev pub finish_state : Option IntegrationSetupError → IntegrationSetupState
finish_state none = setup_ok
finish_state (some _) = setup_failed

module _ {p : Platform} (w : World p) where
  unfoldable pub begin_setup : String → SetupDriver → Controller p → Controller p
  begin_setup ws_id data_ c₀ =
      let c =
        disconnect w (record c₀ {
          sessions = modify ws_id (set_reconfiguring data_.reconfigure) c₀.sessions;
        }) in
      if or_else (parse_value parse_bool data_.setup_data "expert") false
      then notify_later (request_expert_options_msg ws_id) 100 c
      else notify_later (request_options_msg ws_id) 100 c

  -- `Handler<SetupDriverMsg>`
  unfoldable pub setup_driver_msg :
      String → SetupDriver → Controller p → Result (Unit {0}) × Controller p
  setup_driver_msg ws_id data_ c₀ =
      let (accepted, c) = sm_consume w ws_id setup_driver_request c₀ in
      elim accepted [
        | err _ ↦ (err (bad_request "Cannot start driver setup. Please abort setup first."), c)
        | ok _ ↦ (ok tt, begin_setup ws_id data_ c)
      ]

  -- Saves the new settings, uses them, and schedules the end of the flow.
  unfoldable pub apply_settings :
      String → HomeAssistantSettings p → Controller p → Result (Unit {0}) × Controller p
  apply_settings ws_id cfg c = elim (w.save_error cfg) [
    | some e ↦ (err (internal_server_error (String.◌++◌ "Error saving user configuration: " e)), c)
    | none ↦ (ok tt, notify_later (finish_setup_flow_msg ws_id none) 100 (record c { hass = cfg }))
  ]

  unfoldable pub read_setup :
      IntegrationSetup → HomeAssistantSettings p → Result (HomeAssistantSettings p)
  read_setup (input_values values) cfg = read_values w.token_file values cfg
  read_setup other_setup cfg = err (bad_request "Invalid response: require input_values")

  -- `Handler<SetDriverUserDataMsg>`
  unfoldable pub set_driver_user_data_msg :
      String → IntegrationSetup → Controller p → Result (Unit {0}) × Controller p
  set_driver_user_data_msg ws_id data_ c₀ =
      let (accepted, c) = sm_consume w ws_id setup_user_data c₀ in
      elim accepted [
        | err _ ↦ (err (bad_request "Not waiting for driver user data. Please restart setup."), c)
        | ok _ ↦ elim (read_setup data_ c.hass) [
          | err e ↦ (err e, c)
          | ok cfg ↦ apply_settings ws_id cfg c
        ]
      ]

  -- The page of the normal configuration, and that of the expert configuration.
  unfoldable pub options_page : Controller p → WsMessage p
  options_page c =
      let url = get_url w.token_file c.hass in
      event "driver_setup_change" device (
        user_input (
          if has_external_url_and_token p w.token_file
          then ("info", info_label) ∷ ("url", url_label url) ∷ []
          else ("info", info_label)
            ∷ ("url", url_text url)
            ∷ ("token", token_password (is_empty (get_token w.token_file c.hass)))
            ∷ []))

  unfoldable pub expert_options_page : Controller p → WsMessage p
  expert_options_page c =
      let h = c.hass in
      event "driver_setup_change" device (
        user_input (
          ("connection_timeout", number h.connection_timeout 3 30)
          ∷ ("request_timeout", number h.request_timeout 3 30)
          ∷ ("disconnect_in_standby", checkbox h.disconnect_in_standby)
          ∷ ("max_frame_size_kb", number h.max_frame_size_kb 1024 16384)
          ∷ ("reconnect.attempts", number h.reconnect.attempts 0 2000000)
          ∷ ("reconnect.duration_ms", number h.reconnect.duration 100 600000)
          ∷ ("reconnect.duration_max_ms", number h.reconnect.duration_max 1000 600000)
          ∷ ("reconnect.backoff_factor", factor h.reconnect.backoff_factor 1 10)
          ∷ ("heartbeat_interval", number h.heartbeat.interval 0 60)
          ∷ ("heartbeat_timeout", number h.heartbeat.timeout 0 300)
          ∷ ("ping_frames", checkbox h.heartbeat.ping_frames)
          ∷ []))

  unfoldable pub send_page :
      String → (Controller p → WsMessage p) → Result (Unit {0}) × Controller p → Controller p
  send_page ws_id page (ok _, c) = send_r2_msg w (page c) ws_id c
  send_page ws_id page (err _, c) = c

  -- `Handler<RequestOptionsMsg>`
  unfoldable pub request_options : String → Controller p → Controller p
  request_options ws_id c = send_page ws_id options_page (sm_consume w ws_id request_user_input c)

  -- `Handler<RequestExpertOptionsMsg>`
  unfoldable pub request_expert_options : String → Controller p → Controller p
  request_expert_options ws_id c =
      send_page ws_id expert_options_page (sm_consume w ws_id request_user_input c)

  unfoldable pub finish_accepted :
      String → Option IntegrationSetupError → Controller p → Controller p
  finish_accepted ws_id error c₀ =
      let c = record c₀ { sessions = modify ws_id (set_reconfiguring none) c₀.sessions } in
      let e = event "driver_setup_change" device (setup_stop (finish_state error) error) in
      if is_running c.machine
      then spawn (finish_future 2000 ws_id e) (notify connect_msg c)
      else spawn (finish_future 0 ws_id e) c

  -- `Handler<FinishSetupFlowMsg>` up to its future.
  unfoldable pub finish_setup_flow :
      String → Option IntegrationSetupError → Controller p → Controller p
  finish_setup_flow ws_id error c₀ =
      let (accepted, c) = sm_consume w ws_id (finish_input error) c₀ in
      if is_ok accepted then finish_accepted ws_id error c else c

  -- The end of that future.
  unfoldable pub finish_done : String → WsMessage p → Controller p → Controller p
  finish_done ws_id e c = send_r2_msg w e ws_id c

  -- A reconfiguration that was aborted goes back to normal operation.
  unfoldable pub resume_operation : String → Option R2Session → Controller p → Controller p
  resume_operation ws_id none c = c
  resume_operation ws_id (some s) c₀ =
      let c = record c₀ { sessions = modify ws_id (set_reconfiguring none) c₀.sessions } in
      if is_require_setup c.machine
        && is_true s.reconfiguring
        && p.has_host (get_url w.token_file c.hass)
        && not (is_empty (get_token w.token_file c.hass))
      then notify connect_msg (sm_consume w ws_id configuration_available c).1
      else c

  -- `Handler<AbortDriverSetup>`
  unfoldable pub abort_driver_setup : String → Bool → Controller p → Controller p
  abort_driver_setup ws_id true c₀ =
      let (accepted, c) = sm_consume w ws_id OperationModeInput.setup_error c₀ in
      if is_ok accepted
      then cancel_setup_timer (notify (finish_setup_flow_msg ws_id (some timeout)) c)
      else c
  abort_driver_setup ws_id false c₀ =
      let (accepted, c) = sm_consume w ws_id abort_setup c₀ in
      if is_ok accepted
      then cancel_setup_timer (resume_operation ws_id (lookup ws_id c.sessions) c)
      else c
