-- ===== src/Controller/Core.antt =====
-- The methods of `impl Controller` (src/controller/mod.rs): sending to the remotes, the device
-- state, the reconnect delay, and the inputs of the state machine.
use Prim.Native.String
use integration_home_assista.Prelude.{
  ℕ, ◌*◌, String, true, Option, none, some, [], ◌∷◌, ltb, if◌then◌else◌, parse_uint, or_else,
}
use integration_home_assista.Prelude.Dict.{Dict, lookup}
use integration_home_assista.Errors.{Result, ok, err, bad_request}
use integration_home_assista.Platform.{Platform}
use integration_home_assista.Api.{DeviceState, device}
use integration_home_assista.Controller.Machine.{
  OperationModeState, OperationModeInput, OperationModeOutput, setup_flow_timer,
  cancel_setup_flow_timer, transition, state_name, input_name,
}
use integration_home_assista.Controller.Messages.{
  WsMessage, event, HaMsg, device_state_data, abort_driver_setup_msg, to_r2, to_ha,
}
use integration_home_assista.Controller.State.{
  R2Session, World, Controller, notify_later, emit, cancelled,
}

-- `ENV_SETUP_TIMEOUT` in seconds, or `DEF_SETUP_TIMEOUT_SEC`.
unfoldable pub setup_timeout_secs : Option String → ℕ
setup_timeout_secs none = 300
setup_timeout_secs (some v) = or_else (parse_uint 18446744073709551615 v) 300

unfoldable pub transition_refused : OperationModeInput → OperationModeState → String
transition_refused input state =
    String.◌++◌ "Transition "
      (String.◌++◌ (input_name input) (String.◌++◌ " not allowed in state " (state_name state)))

module _ {p : Platform} where
  -- `if let Some(handle) = self.setup_timeout.take() { ctx.cancel_future(handle) }`
  unfoldable pub cancel_setup_timer : Controller p → Controller p
  cancel_setup_timer c = record c {
    timers = cancelled c.setup_timeout c.timers;
    setup_timeout = none;
  }

module _ {p : Platform} (w : World p) where
  -- `session.recipient.try_send(SendWsMessage(message))`
  unfoldable pub try_send_r2 : ℕ → WsMessage p → Controller p → Controller p
  try_send_r2 recipient m c = if w.r2_accepts recipient m then emit (to_r2 recipient m) c else c

  -- `ha_client.try_send(message)`, where the error is only logged.
  unfoldable pub try_send_ha : ℕ → HaMsg p → Controller p → Controller p
  try_send_ha addr m c = if w.ha_accepts addr m then emit (to_ha addr m) c else c

  send_to_session : Option R2Session → WsMessage p → Controller p → Controller p
  send_to_session none m c = c
  send_to_session (some s) m c = if s.standby then c else try_send_r2 s.recipient m c

  unfoldable pub send_r2_msg : WsMessage p → String → Controller p → Controller p
  unfolding send_to_session try_send_r2
  send_r2_msg m ws_id c = send_to_session (lookup ws_id c.sessions) m c

  unfoldable pub send_device_state : String → Controller p → Controller p
  unfolding send_r2_msg
  send_device_state ws_id c =
      send_r2_msg (event "device_state" device (device_state_data c.device_state)) ws_id c

  -- The loop over the keys of the session map.
  unfoldable pub send_device_states : Dict R2Session → Controller p → Controller p
  send_device_states [] c = c
  send_device_states ((ws_id, _) ∷ rest) c = send_device_states rest (send_device_state ws_id c)

  unfoldable pub broadcast_device_state : Controller p → Controller p
  unfolding send_device_states
  broadcast_device_state c = send_device_states c.sessions c

  unfoldable pub set_device_state : DeviceState → Controller p → Controller p
  set_device_state state c = broadcast_device_state (record c { device_state = state })

  start_setup_timer : String → Controller p → Controller p
  start_setup_timer ws_id c =
      let c' = record c { timers = cancelled c.setup_timeout c.timers } in
      record (notify_later (abort_driver_setup_msg ws_id true)
        (setup_timeout_secs w.setup_timeout_env * 1000) c') { setup_timeout = some c.next_handle }

  run_output : String → Option OperationModeOutput → Controller p → Controller p
  run_output ws_id none c = c
  run_output ws_id (some setup_flow_timer) c = start_setup_timer ws_id c
  run_output ws_id (some cancel_setup_flow_timer) c = cancel_setup_timer c

  unfoldable pub sm_consume :
      String → OperationModeInput → Controller p → Result (Unit {0}) × Controller p
  unfolding run_output start_setup_timer cancel_setup_timer
  sm_consume ws_id input c = elim (transition c.machine input) [
    | none ↦ (err (bad_request (transition_refused input c.machine)), c)
    | some (s, output) ↦ (ok tt, run_output ws_id output (record c { machine = s }))
  ]

module _ {p : Platform} where
  -- `new_timeout.gt(&duration_max)`
  unfoldable pub increment_reconnect_timeout : Controller p → Controller p
  increment_reconnect_timeout c =
      let r = c.hass.reconnect in
      let new_timeout = p.scale_ms c.ha_reconnect_duration r.backoff_factor in
      record c {
        ha_reconnect_duration =
            if ltb r.duration_max new_timeout then r.duration_max else new_timeout;
      }
