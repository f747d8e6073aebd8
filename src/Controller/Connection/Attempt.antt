-- ===== src/Controller/Connection/Attempt.antt =====
-- What starts a connection attempt, and what its end does to the client.
use integration_home_assista.Prelude.Dict.{Dict}
use integration_home_assista.Controller.SetupTimer.{is_in_setup}
use integration_home_assista.Prelude.{
  if◌then◌else◌, ℕ, Bool, true, String, [], ◌∷◌, ◌++◌, ◌≡◌, ◌≢◌, refl, none, some, arith, not,
  is_some, is_empty, ◌&&◌, ◌||◌, ◌*◌,
}
use integration_home_assista.Platform.{Platform}
use integration_home_assista.Settings.{get_url, get_token}
use integration_home_assista.Api.{connecting}
use integration_home_assista.Controller.Machine.{
  OperationModeInput, transition, running, require_setup,
}
use integration_home_assista.Controller.State.{
  World, Controller, R2Session, ConnectRequest, connecting_future, cancelled,
}
use integration_home_assista.Controller.Core.{sm_consume, try_send_ha}
use integration_home_assista.Controller.Frames.{set_device_state-KeepsFields}
use integration_home_assista.Controller.Connection.{
  missing_url_or_token, attempting, attempt_succeeded, introduce, connect_done, may_connect,
  cancel_reconnect, begin_attempt, connect,
}

module _ {p : Platform} (w : World p) where
  -- The settings in effect name a host and a token.
  abbrev is_configured : Controller p → Bool
  is_configured c =
      is_some (p.host_str (get_url w.token_file c.hass))
      && not (is_empty (get_token w.token_file c.hass))

  abbrev has_client : Controller p → Bool
  has_client c = is_some c.ha_client_id && is_some c.ha_client

  abbrev request_of : Controller p → ConnectRequest p
  request_of c = record {
    url = get_url w.token_file c.hass;
    token = get_token w.token_file c.hass;
    max_frame_size = c.hass.max_frame_size_kb * 1024;
    heartbeat = c.hass.heartbeat;
    remote_id = c.remote_id;
  }

  -- `connect` always cancels the pending retry. It starts an attempt exactly if the mode is normal
  -- operation or required setup, no client is connected, and the settings in effect name a host and
  -- a token; it then spawns one attempt with these settings and sets the device state. Where only
  -- the settings are missing, the driver goes back to requiring a setup; otherwise the mode is kept.
  pub connect_lem :
      (c : Controller p)
      → let (o, d) = connect w c in
        (d.reconnect_handle ≡ none)
        × (d.timers ≡ cancelled c.reconnect_handle c.timers)
        × ((may_connect c.machine && not (has_client c) && is_configured c) ≡ true
            → (o ≡ attempting)
              × (d.device_state ≡ connecting)
              × (d.futures ≡ c.futures ++ connecting_future (request_of c) ∷ [])
              × (d.machine ≡ c.machine))
        × ((may_connect c.machine && not (has_client c) && not (is_configured c)) ≡ true
            → (o ≡ missing_url_or_token) × (d.machine ≡ require_setup) × (d.futures ≡ c.futures))
        × ((not (may_connect c.machine) || has_client c) ≡ true
            → (o ≢ attempting) × (d.machine ≡ c.machine) × (d.futures ≡ c.futures))
  unfolding connect cancel_reconnect begin_attempt sm_consume transition
  connect_lem c = ground (arith, set_device_state-KeepsFields w connecting (cancel_reconnect c))

  introduce_keeps :
      (addr : ℕ) (id : String) (d : Dict R2Session) (c : Controller p)
      → let e = introduce w addr id d c in
        (e.ha_client ≡ c.ha_client)
        × (e.ha_client_id ≡ c.ha_client_id)
        × (e.ha_reconnect_attempt ≡ c.ha_reconnect_attempt)
        × (e.ha_reconnect_duration ≡ c.ha_reconnect_duration)
        × (e.device_state ≡ c.device_state)
        × (e.machine ≡ c.machine)
  unfolding introduce try_send_ha
  introduce_keeps addr id [] c = (refl, refl, refl, refl, refl, refl)
  introduce_keeps addr id ((_, s) ∷ _) c = ground arith

  -- An attempt that succeeds makes its client the one of the controller and starts the count and the
  -- delay of the retries anew, whatever the device state is by then: also where the controller was
  -- disconnected while the attempt was pending. The mode becomes normal operation unless a setup flow
  -- is active, which goes on.
  pub connect_done_installs :
      (request : ConnectRequest p) (addr : ℕ) (c : Controller p)
      → let d = connect_done w request (some addr) c in
        (d.ha_client ≡ some addr)
        × (d.ha_client_id ≡ none)
        × (d.ha_reconnect_attempt ≡ 0)
        × (d.ha_reconnect_duration ≡ c.hass.reconnect.duration)
        × (d.device_state ≡ c.device_state)
        × (d.machine ≡ (if is_in_setup c.machine then c.machine else running))
  unfolding connect_done attempt_succeeded sm_consume transition
  connect_done_installs request addr c =
      let c₁ =
        (sm_consume w "0" OperationModeInput.connected (record c { ha_client_id = none })).1 in
      ground (
        arith,
        introduce_keeps addr request.remote_id c₁.sessions (record c₁ {
          ha_client = some addr;
          ha_reconnect_duration = c₁.hass.reconnect.duration;
          ha_reconnect_attempt = 0;
        }),
      )
