-- ===== src/Controller/Sessions/Kept.antt =====
-- The handlers of the connection to Home Assistant leave the sessions of the remotes as they are.
use integration_home_assista.Prelude.{
  ℕ, [], ◌∷◌, String, Option, none, some, ◌≡◌, refl, arith, ◌∙◌, ◌+◌, ◌%◌, ◌^◌,
}
use integration_home_assista.Prelude.Dict.{Dict}
use integration_home_assista.Platform.{Platform}
use integration_home_assista.Api.{DeviceState, disconnected, connecting, connected, error}
use integration_home_assista.Controller.Machine.{OperationModeInput, abort_setup}
use integration_home_assista.Controller.Messages.{WsMessage, HaMsg}
use integration_home_assista.Controller.State.{R2Session, World, Controller, ConnectRequest}
use integration_home_assista.Controller.Core.{
  send_r2_msg, try_send_ha, try_send_r2, send_device_state, set_device_state, sm_consume,
  increment_reconnect_timeout,
}
use integration_home_assista.Controller.Frames.{
  send_r2_msg-OnlySends, try_send_ha-OnlySends, try_send_r2-OnlySends, send_device_state-OnlySends,
  set_device_state_lem,
}
use integration_home_assista.Controller.Connection.{
  ConnectionState, authentication_failed, client_connected, closed, client_closed, connection_event,
  disconnect, connect, begin_attempt, introduce, attempt_succeeded, attempt_failed,
  retry_or_give_up, connect_done, close_client, cancel_reconnect, schedule_reconnect,
}

module _ {p : Platform} (w : World p) where
  pub sessions-send_r2_msg :
      (m : WsMessage p) (id : String) (c : Controller p)
      → (send_r2_msg w m id c).sessions ≡ c.sessions
  sessions-send_r2_msg m id c = let (s, e) = send_r2_msg-OnlySends w m id c in rw e

  pub sessions-try_send_ha :
      (addr : ℕ) (m : HaMsg p) (c : Controller p) → (try_send_ha w addr m c).sessions ≡ c.sessions
  sessions-try_send_ha addr m c = let (s, e) = try_send_ha-OnlySends w addr m c in rw e

  pub sessions-try_send_r2 :
      (r : ℕ) (m : WsMessage p) (c : Controller p) → (try_send_r2 w r m c).sessions ≡ c.sessions
  sessions-try_send_r2 r m c = let (s, e) = try_send_r2-OnlySends w r m c in rw e

  pub sessions-send_device_state :
      (id : String) (c : Controller p) → (send_device_state w id c).sessions ≡ c.sessions
  sessions-send_device_state id c = let (s, e) = send_device_state-OnlySends w id c in rw e

  pub sessions-set_device_state :
      (state : DeviceState) (c : Controller p) → (set_device_state w state c).sessions ≡ c.sessions
  sessions-set_device_state state c = let (s, e) = set_device_state_lem w state c in rw e

  pub sessions-sm_consume :
      (id : String) (i : OperationModeInput) (c : Controller p)
      → (sm_consume w id i c).1.sessions ≡ c.sessions
  unfolding sm_consume
  sessions-sm_consume id i c = ground arith

  sessions-client_closed :
      (id : String) (c : Controller p) → (client_closed w id c).sessions ≡ c.sessions
  unfolding client_closed schedule_reconnect
  sessions-client_closed id c = ground (
    arith,
    sessions-set_device_state connecting (record c { ha_client = none; ha_client_id = none }),
  )

  pub sessions-connection_event :
      (id : String) (s : ConnectionState) (c : Controller p)
      → (connection_event w id s c).sessions ≡ c.sessions
  unfolding connection_event
  sessions-connection_event id authentication_failed c = sessions-set_device_state error c
  sessions-connection_event id client_connected c = sessions-set_device_state connected _
  sessions-connection_event id closed c = sessions-client_closed id c

  sessions-close_client :
      (o : Option ℕ) (c : Controller p) → (close_client o c).sessions ≡ c.sessions
  unfolding close_client
  sessions-close_client none c = refl
  sessions-close_client (some _) c = refl

  pub sessions-disconnect : (c : Controller p) → (disconnect w c).sessions ≡ c.sessions
  unfolding disconnect cancel_reconnect
  sessions-disconnect c = sessions-close_client _ _ ∙ sessions-set_device_state disconnected c

  pub sessions-connect : (c : Controller p) → (connect w c).1.sessions ≡ c.sessions
  unfolding connect begin_attempt cancel_reconnect
  sessions-connect c =
      let c' = cancel_reconnect c in
      ground
        (arith, sessions-sm_consume "0" abort_setup c', sessions-set_device_state connecting c')

  sessions-introduce :
      (addr : ℕ) (id : String) (d : Dict R2Session) (c : Controller p)
      → (introduce w addr id d c).sessions ≡ c.sessions
  unfolding introduce
  sessions-introduce addr id [] c = refl
  sessions-introduce addr id ((_, s) ∷ _) c =
      sessions-try_send_ha _ _ _ ∙ sessions-try_send_ha _ _ c

  sessions-retry_or_give_up : (c : Controller p) → (retry_or_give_up w c).sessions ≡ c.sessions
  unfolding retry_or_give_up increment_reconnect_timeout schedule_reconnect
  sessions-retry_or_give_up c =
      let c' = record c { ha_reconnect_attempt = (c.ha_reconnect_attempt + 1) % 2 ^ 32 } in
      ground (arith, sessions-set_device_state error c')

  sessions-attempt_failed : (c : Controller p) → (attempt_failed w c).sessions ≡ c.sessions
  unfolding attempt_failed
  sessions-attempt_failed c =
      ground (arith, sessions-retry_or_give_up (record c { ha_client = none }))

  pub sessions-connect_done :
      (r : ConnectRequest p) (result : Option ℕ) (c : Controller p)
      → (connect_done w r result c).sessions ≡ c.sessions
  unfolding connect_done attempt_succeeded
  sessions-connect_done r (some addr) c =
      sessions-introduce addr r.remote_id _ _
      ∙ sessions-sm_consume "0" OperationModeInput.connected _
  sessions-connect_done r none c = sessions-attempt_failed _
