-- ===== src/Controller/Connection.antt =====
-- src/controller/handler/ha_connection.rs: the connection to Home Assistant.
pub mod Reconnect
pub mod Retries
pub mod Attempt
use integration_home_assista.Prelude.{
  ℕ, suc, ◌+◌, ◌*◌, ◌%◌, ◌^◌, String, Bool, true, false, Option, none, some, List, [], ◌∷◌, ltb,
  ◌&&◌, ◌||◌, not, if◌then◌else◌, is_empty, is_some, str_eq,
}
use integration_home_assista.Prelude.Dict.{Dict}
use integration_home_assista.Errors.{Result}
use integration_home_assista.Platform.{Platform}
use integration_home_assista.Settings.{get_url, get_token}
use integration_home_assista.Api.{DeviceState, disconnected, connecting, connected, error}
use integration_home_assista.Controller.Machine.{
  OperationModeState, OperationModeInput, running, require_setup, abort_setup,
}
use integration_home_assista.Controller.Messages.{
  HaMsg, close, set_remote_id, subscribed_entities, connect_msg, to_ha,
}
use integration_home_assista.Controller.State.{
  R2Session, World, Controller, ConnectRequest, connecting_future, notify_later, spawn, emit,
  cancelled,
}
use integration_home_assista.Controller.Core.{
  set_device_state, sm_consume, try_send_ha, increment_reconnect_timeout,
}

-- `ConnectionState`
pub data ConnectionState : Type 0 where
  authentication_failed client_connected closed : ConnectionState

abbrev pub is_disconnected : DeviceState → Bool
is_disconnected disconnected = true
is_disconnected _ = false

-- `DeviceState::Connecting | DeviceState::Connected`
abbrev pub is_connected_or_connecting : DeviceState → Bool
is_connected_or_connecting connecting = true
is_connected_or_connecting connected = true
is_connected_or_connecting _ = false

-- `OperationModeState::Running | OperationModeState::RequireSetup`
abbrev pub may_connect : OperationModeState → Bool
may_connect running = true
may_connect require_setup = true
may_connect _ = false

-- `Some(&client_id) == ha_client_id.as_ref()`
abbrev pub is_id : String → Option String → Bool
is_id client_id none = false
is_id client_id (some id) = str_eq client_id id

-- How the handler of `ConnectMsg` ends: with the error "Not in running state", at once, with the
-- error "Missing HA url or token", or with an attempt.
pub data ConnectOutcome : Type 0 where
  not_in_running_state already_connected missing_url_or_token attempting : ConnectOutcome

module _ {p : Platform} where
  -- `self.reconnect_handle = Some(ctx.notify_later(ConnectMsg, self.ha_reconnect_duration))`
  unfoldable pub schedule_reconnect : Controller p → Controller p
  schedule_reconnect c = record (notify_later connect_msg c.ha_reconnect_duration c) {
    reconnect_handle = some c.next_handle;
  }

  unfoldable pub cancel_reconnect : Controller p → Controller p
  cancel_reconnect c = record c {
    timers = cancelled c.reconnect_handle c.timers;
    reconnect_handle = none;
  }

  -- `addr.do_send(Close::default())`, if there is a client.
  unfoldable pub close_client : Option ℕ → Controller p → Controller p
  close_client none c = c
  close_client (some addr) c = emit (to_ha addr close) c

module _ {p : Platform} (w : World p) where
  unfoldable pub client_closed : String → Controller p → Controller p
  client_closed client_id c =
      let c' = record c { ha_client = none; ha_client_id = none } in
      if is_id client_id c.ha_client_id
      then if is_connected_or_connecting c.device_state
        then schedule_reconnect (set_device_state w connecting c')
        else c'
      else c

  -- `Handler<ConnectionEvent>`
  unfoldable pub connection_event : String → ConnectionState → Controller p → Controller p
  connection_event client_id authentication_failed c = set_device_state w error c
  connection_event client_id client_connected c =
      set_device_state w connected (record c { ha_client_id = some client_id })
  connection_event client_id closed c = client_closed client_id c

  -- `Controller::disconnect`, and so `Handler<DisconnectMsg>`.
  unfoldable pub disconnect : Controller p → Controller p
  disconnect c =
      let c' = cancel_reconnect (set_device_state w disconnected c) in
      record (close_client c'.ha_client c') { ha_client = none; ha_client_id = none }

  unfoldable pub begin_attempt : Controller p → Controller p
  begin_attempt c =
      spawn
        (connecting_future (record {
          url = get_url w.token_file c.hass;
          token = get_token w.token_file c.hass;
          max_frame_size = c.hass.max_frame_size_kb * 1024;
          heartbeat = c.hass.heartbeat;
          remote_id = c.remote_id;
        }))
        (set_device_state w connecting c)

  -- `Handler<ConnectMsg>` up to its future.
  unfoldable pub connect : Controller p → ConnectOutcome × Controller p
  connect c₀ =
      let c = cancel_reconnect c₀ in
      if not (may_connect c.machine)
      then (not_in_running_state, c)
      else if is_some c.ha_client_id && is_some c.ha_client
      then (already_connected, c)
      else if not (is_some (p.host_str (get_url w.token_file c.hass)))
          || is_empty (get_token w.token_file c.hass)
      then (missing_url_or_token, (sm_consume w "0" abort_setup c).1)
      else (attempting, begin_attempt c)

  -- The first session, if any, tells the new client the remote and its subscriptions.
  unfoldable pub introduce : ℕ → String → Dict R2Session → Controller p → Controller p
  introduce addr remote_id [] c = c
  introduce addr remote_id ((_, s) ∷ _) c =
      try_send_ha w addr (subscribed_entities s.subscribed_entities)
        (try_send_ha w addr (set_remote_id remote_id) c)

  unfoldable pub attempt_succeeded : ℕ → String → Controller p → Controller p
  attempt_succeeded addr remote_id c₀ =
      let c = (sm_consume w "0" OperationModeInput.connected c₀).1 in
      introduce addr remote_id c.sessions (record c {
        ha_client = some addr;
        ha_reconnect_duration = c.hass.reconnect.duration;
        ha_reconnect_attempt = 0;
      })

  unfoldable pub retry_or_give_up : Controller p → Controller p
  retry_or_give_up c₀ =
      let c = record c₀ { ha_reconnect_attempt = (c₀.ha_reconnect_attempt + 1) % 2 ^ 32 } in
      if ltb 0 c.hass.reconnect.attempts && ltb c.hass.reconnect.attempts c.ha_reconnect_attempt
      then set_device_state w error c
      else increment_reconnect_timeout (schedule_reconnect c)

  unfoldable pub attempt_failed : Controller p → Controller p
  attempt_failed c₀ =
      let c = record c₀ { ha_client = none } in
      if is_disconnected c.device_state then c else retry_or_give_up c

  -- The end of the future: `some addr` is the address of the client that was started, `none` a
  -- connection error.
  unfoldable pub connect_done : ConnectRequest p → Option ℕ → Controller p → Controller p
  connect_done request result c₀ =
      let c = record c₀ { ha_client_id = none } in
      elim result [
        | some addr ↦ attempt_succeeded addr request.remote_id c
        | none ↦ attempt_failed c
      ]
