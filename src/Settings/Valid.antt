-- ===== src/Settings/Valid.antt =====
-- What is true of the settings that a start of the program uses.
use integration_home_assista.Prelude.{◌≤◌, ◌<◌, ◌≡◌, ◌≢◌, false, arith, eq_iff}
use integration_home_assista.Platform.{Platform}
use integration_home_assista.Settings.{
  ReconnectSettings, HeartbeatSettings, HomeAssistantSettings, checked, panicked, check_reconnect,
  check_heartbeat, check_url, replace_scheme, check_cfg_values,
}
use integration_home_assista.Controller.Url.Scheme.{SetsScheme, IsWebSocket}

module _ (p : Platform) where
  -- The default back-off factor of the program, 1.5, is not below one.
  abbrev pub HasBackoff : Type 0
  HasBackoff = p.lt_one p.default_backoff ≡ false

  abbrev pub IsUsable : HomeAssistantSettings p → Type 0
  IsUsable cfg =
      IsWebSocket p cfg.url
      × (p.lt_one cfg.reconnect.backoff_factor ≡ false)
      × (100 ≤ cfg.reconnect.duration)
      × (1000 ≤ cfg.reconnect.duration_max)
      × (5 ≤ cfg.heartbeat.interval)
      × (cfg.heartbeat.interval < cfg.heartbeat.timeout)

  usable_checked : (d : HomeAssistantSettings p) → IsUsable d → check_cfg_values d ≡ checked d
  unfolding check_cfg_values check_url check_reconnect check_heartbeat
  usable_checked d h = ground (arith, eq_iff (p.scheme d.url) "ws", eq_iff (p.scheme d.url) "wss")

  url_checked :
      (cfg : HomeAssistantSettings p)
      → SetsScheme p
      → (check_url cfg ≢ panicked)
        × ((d : HomeAssistantSettings p)
            → check_url cfg ≡ checked d
            → IsWebSocket p d.url
              × (d.token ≡ cfg.token)
              × (d.connection_timeout ≡ cfg.connection_timeout)
              × (d.request_timeout ≡ cfg.request_timeout)
              × (d.reconnect ≡ cfg.reconnect)
              × (d.heartbeat ≡ cfg.heartbeat))
  unfolding check_url replace_scheme
  url_checked cfg h = (
    ground (
      arith,
      eq_iff (p.scheme cfg.url) "http",
      eq_iff (p.scheme cfg.url) "https",
      h.0 cfg.url,
      h.1 cfg.url,
    ),
    λ d e. ground (
      arith,
      eq_iff (p.scheme cfg.url) "http",
      eq_iff (p.scheme cfg.url) "https",
      eq_iff (p.scheme cfg.url) "ws",
      eq_iff (p.scheme cfg.url) "wss",
      h.0 cfg.url,
      h.1 cfg.url,
    ),
  )

  reconnect_checked :
      (r : ReconnectSettings p)
      → HasBackoff
      → let d = check_reconnect r in
        (p.lt_one d.backoff_factor ≡ false) × (100 ≤ d.duration) × (1000 ≤ d.duration_max)
  unfolding check_reconnect
  reconnect_checked r b = ground arith

  heartbeat_checked :
      (r : HeartbeatSettings)
      → let d = check_heartbeat r in (5 ≤ d.interval) × (d.interval < d.timeout)
  unfolding check_heartbeat
  heartbeat_checked r = ground arith

  -- Where the crate for URLs sets the WebSocket schemes as it documents, and the default back-off
  -- factor is not below one: the check of a loaded configuration does not panic. The settings that
  -- it accepts have a WebSocket URL, a retry delay of at least 100 ms with a maximum of at least a
  -- second and a back-off factor that is not below one, and a heartbeat of at least 5 s that is
  -- shorter than its timeout; a second check leaves them as they are. The timeouts and the token
  -- are those of the configuration.
  pub check_cfg_values-IsUsable :
      (cfg : HomeAssistantSettings p)
      → SetsScheme p
      → HasBackoff
      → (check_cfg_values cfg ≢ panicked)
        × ((d : HomeAssistantSettings p)
            → check_cfg_values cfg ≡ checked d
            → IsUsable d
              × (check_cfg_values d ≡ checked d)
              × (d.token ≡ cfg.token)
              × (d.connection_timeout ≡ cfg.connection_timeout)
              × (d.request_timeout ≡ cfg.request_timeout))
  unfolding check_cfg_values
  check_cfg_values-IsUsable cfg h b =
      let c = record cfg {
        reconnect = check_reconnect cfg.reconnect;
        heartbeat = check_heartbeat cfg.heartbeat;
      } in
      (
        (url_checked c h).0,
        λ d e.
            let (u, t, x, y, r, k) = (url_checked c h).1 d e in
            let (a₁, a₂, a₃) = reconnect_checked cfg.reconnect b in
            let (b₁, b₂) = heartbeat_checked cfg.heartbeat in
            let usable : IsUsable d = (u, rw r a₁, rw r a₂, rw r a₃, rw k b₁, rw k b₂) in
            (usable, usable_checked d usable, t, x, y),
      )
