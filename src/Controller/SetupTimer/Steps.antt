-- ===== src/Controller/SetupTimer/Steps.antt =====
-- Every handler of the connection and of the sessions keeps the setup timer in step with the state.
use integration_home_assista.Prelude.{
  ℕ, String, true, false, [], ◌∷◌, Option, none, some, if_keep, Option-cases, inl, inr, not,
  is_some, is_empty, ◌&&◌, ◌||◌, ◌+◌, ◌%◌, ◌^◌, ltb,
}
use integration_home_assista.Prelude.Dict.{Dict, lookup, insert, modify}
use integration_home_assista.Platform.{Platform}
use integration_home_assista.Settings.{get_url, get_token}
use integration_home_assista.Api
use integration_home_assista.Api.{connected, connecting, error, disconnected, R2Event}
use integration_home_assista.Controller.Messages.{connect_msg, disconnect_msg}
use integration_home_assista.Controller.State.{
  World, Controller, R2Session, ConnectRequest, notify, new_session, new_msg_id,
}
use integration_home_assista.Controller.Connection.{
  ConnectOutcome, ConnectionState, authentication_failed, client_connected, closed,
  connection_event, client_closed, begin_attempt, disconnect, close_client, is_id,
  is_connected_or_connecting, cancel_reconnect, may_connect, connect, connect_done, is_disconnected,
  attempt_failed, attempt_succeeded, retry_or_give_up, introduce,
}
use integration_home_assista.Controller.Sessions.{
  new_r2_session, request_version, r2_event, on_event, is_connected, store_remote_id,
  tell_remote_id, set_standby,
}
use integration_home_assista.Controller.Core.{increment_reconnect_timeout}
use integration_home_assista.Controller.Machine.{OperationModeInput, abort_setup}
use integration_home_assista.Controller.SetupTimer.{
  SetupTimed, set_device_state-SetupTimed, schedule_reconnect-SetupTimed,
  cancel_reconnect-SetupTimed, sm_consume-SetupTimed, try_send_ha-SetupTimed,
  send_device_state-SetupTimed, try_send_r2-SetupTimed,
}

module _ {p : Platform} where
  -- The invariant of a handler's result, whatever it returns.
  abbrev pub ThenTimed : {A : Type 0} → A × Controller p → Type 0
  ThenTimed r = SetupTimed r.1

  close_client-SetupTimed :
      (a : Option ℕ) (c : Controller p) → SetupTimed c → SetupTimed (close_client a c)
  unfolding close_client
  close_client-SetupTimed none c h = h
  close_client-SetupTimed (some _) c h = record { timed = h.timed }

  increment_reconnect_timeout-SetupTimed :
      (c : Controller p) → SetupTimed c → SetupTimed (increment_reconnect_timeout c)
  unfolding increment_reconnect_timeout
  increment_reconnect_timeout-SetupTimed c h = record { timed = h.timed }

module _ {p : Platform} (w : World p) where
  pub connection_event-SetupTimed :
      (id : String) (s : ConnectionState) (c : Controller p)
      → SetupTimed c
      → SetupTimed (connection_event w id s c)
  unfolding connection_event client_closed
  connection_event-SetupTimed id authentication_failed c h = set_device_state-SetupTimed w error c h
  connection_event-SetupTimed id client_connected c h =
      set_device_state-SetupTimed w connected _ (record { timed = h.timed })
  connection_event-SetupTimed id closed c h =
      let c' = record c { ha_client = none; ha_client_id = none } in
      if_keep SetupTimed (is_id id c.ha_client_id)
        (if_keep SetupTimed (is_connected_or_connecting c.device_state)
          (schedule_reconnect-SetupTimed _
            (set_device_state-SetupTimed w connecting c' (record { timed = h.timed })))
          (record { timed = h.timed }))
        h

  pub disconnect-SetupTimed : (c : Controller p) → SetupTimed c → SetupTimed (disconnect w c)
  unfolding disconnect
  disconnect-SetupTimed c h =
      let k =
        close_client-SetupTimed _ _
          (cancel_reconnect-SetupTimed _ (set_device_state-SetupTimed w disconnected c h)) in
      record { timed = k.timed }

  pub connect-SetupTimed : (c : Controller p) → SetupTimed c → ThenTimed (connect w c)
  unfolding connect begin_attempt
  connect-SetupTimed c₀ h₀ =
      let c = cancel_reconnect c₀ in
      let h = cancel_reconnect-SetupTimed c₀ h₀ in
      if_keep {A = ConnectOutcome × Controller p} ThenTimed (not (may_connect c.machine)) h (
        if_keep {A = ConnectOutcome × Controller p} ThenTimed
          (is_some c.ha_client_id && is_some c.ha_client) h
          (if_keep {A = ConnectOutcome × Controller p} ThenTimed
            (not (is_some (p.host_str (get_url w.token_file c.hass)))
              || is_empty (get_token w.token_file c.hass))
            (sm_consume-SetupTimed w "0" abort_setup _ h)
            (record { timed = (set_device_state-SetupTimed w connecting _ h).timed })))

  introduce-SetupTimed :
      (addr : ℕ) (id : String) (d : Dict R2Session) (c : Controller p)
      → SetupTimed c
      → SetupTimed (introduce w addr id d c)
  unfolding introduce
  introduce-SetupTimed addr id [] c h = h
  introduce-SetupTimed addr id ((_, s) ∷ _) c h =
      try_send_ha-SetupTimed w _ _ _ (try_send_ha-SetupTimed w _ _ c h)

  attempt_succeeded-SetupTimed :
      (addr : ℕ) (id : String) (c : Controller p)
      → SetupTimed c
      → SetupTimed (attempt_succeeded w addr id c)
  unfolding attempt_succeeded
  attempt_succeeded-SetupTimed addr id c h =
      introduce-SetupTimed addr id _ _
        (record { timed = (sm_consume-SetupTimed w "0" OperationModeInput.connected c h).timed })

  retry_or_give_up-SetupTimed :
      (c : Controller p) → SetupTimed c → SetupTimed (retry_or_give_up w c)
  unfolding retry_or_give_up
  retry_or_give_up-SetupTimed c h =
      let n = (c.ha_reconnect_attempt + 1) % 2 ^ 32 in
      let most = c.hass.reconnect.attempts in
      let k : SetupTimed (record c { ha_reconnect_attempt = n }) = record { timed = h.timed } in
      if_keep SetupTimed (ltb 0 most && ltb most n) (set_device_state-SetupTimed w error _ k)
        (increment_reconnect_timeout-SetupTimed _ (schedule_reconnect-SetupTimed _ k))

  attempt_failed-SetupTimed : (c : Controller p) → SetupTimed c → SetupTimed (attempt_failed w c)
  unfolding attempt_failed
  attempt_failed-SetupTimed c h =
      let k : SetupTimed (record c { ha_client = none }) = record { timed = h.timed } in
      if_keep SetupTimed (is_disconnected c.device_state) k (retry_or_give_up-SetupTimed _ k)

  pub connect_done-SetupTimed :
      (r : ConnectRequest p) (result : Option ℕ) (c : Controller p)
      → SetupTimed c
      → SetupTimed (connect_done w r result c)
  unfolding connect_done
  connect_done-SetupTimed r (some addr) c h =
      attempt_succeeded-SetupTimed addr r.remote_id _ (record { timed = h.timed })
  connect_done-SetupTimed r none c h = attempt_failed-SetupTimed _ (record { timed = h.timed })

  request_version-SetupTimed :
      (id : String) (o : Option R2Session) (c : Controller p)
      → SetupTimed c
      → SetupTimed (request_version w id o c)
  unfolding request_version
  request_version-SetupTimed id none c h = h
  request_version-SetupTimed id (some s) c h =
      try_send_r2-SetupTimed w _ _ (record c { sessions = insert id (new_msg_id s).0 c.sessions })
        (record { timed = h.timed })

  pub new_r2_session-SetupTimed :
      (id : String) (addr : ℕ) (c : Controller p)
      → SetupTimed c
      → SetupTimed (new_r2_session w id addr c)
  unfolding new_r2_session
  new_r2_session-SetupTimed id addr c h = request_version-SetupTimed id _ _ (
      send_device_state-SetupTimed w id
        (record c { sessions = insert id (new_session addr) c.sessions })
        (record { timed = h.timed }))

  on_event-SetupTimed :
      (id : String) (e : R2Event) (c : Controller p) → SetupTimed c → SetupTimed (on_event w id e c)
  unfolding on_event
  on_event-SetupTimed id Api.connect c h = send_device_state-SetupTimed w id _ (
      if_keep SetupTimed (is_connected c.device_state) {y = notify connect_msg c} h
        (record { timed = h.timed }))
  on_event-SetupTimed id Api.disconnect c h = record { timed = h.timed }
  on_event-SetupTimed id Api.enter_standby c h =
      let c' = record c { sessions = modify id (set_standby true) c.sessions } in
      if_keep SetupTimed c.hass.disconnect_in_standby {x = notify disconnect_msg c'} {y = c'}
        (record { timed = h.timed }) (record { timed = h.timed })
  on_event-SetupTimed id Api.exit_standby c h =
      let c' = record c { sessions = modify id (set_standby false) c.sessions } in
      if_keep SetupTimed c.hass.disconnect_in_standby {y = c'}
        (send_device_state-SetupTimed w id (notify connect_msg c') (record { timed = h.timed }))
        (record { timed = h.timed })
  on_event-SetupTimed id Api.abort_driver_setup c h = record { timed = h.timed }

  pub r2_event-SetupTimed :
      (id : String) (e : R2Event) (c : Controller p) → SetupTimed c → SetupTimed (r2_event w id e c)
  unfolding r2_event
  r2_event-SetupTimed id e c h = elim (Option-cases (lookup id c.sessions)) [
    | inl q ↦ rw (q, r2_event) h
    | inr (s, q) ↦ rw (q, r2_event) (on_event-SetupTimed id e c h)
  ]

  tell_remote_id-SetupTimed :
      (o : Option ℕ) (c : Controller p) → SetupTimed c → SetupTimed (tell_remote_id w o c)
  unfolding tell_remote_id
  tell_remote_id-SetupTimed none c h = h
  tell_remote_id-SetupTimed (some addr) c h = try_send_ha-SetupTimed w addr _ c h

  pub store_remote_id-SetupTimed :
      (o : Option String) (c : Controller p) → SetupTimed c → SetupTimed (store_remote_id w o c)
  unfolding store_remote_id
  store_remote_id-SetupTimed none c h = h
  store_remote_id-SetupTimed (some name) c h =
      tell_remote_id-SetupTimed c.ha_client (record c { remote_id = name })
        (record { timed = h.timed })
