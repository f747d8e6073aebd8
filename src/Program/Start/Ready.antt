-- ===== src/Program/Start/Ready.antt =====
-- src/main.rs: what is true of a program that has started, and when it starts.
use mathlib.Core.Path.{subst}
use integration_home_assista.Prelude.{
  ℕ, String, true, Option, none, some, List, ◌≡◌, ◌≢◌, refl, arith, is_some, not, sym, ◌∙◌, ◌||◌,
  ◌⊎◌,
}
use integration_home_assista.Platform.{Platform}
use integration_home_assista.Settings.Valid.{IsUsable, HasBackoff}
use integration_home_assista.Settings.Load.{
  IntegrationSettings, CertificateSettings, Settings, Load, loaded, get_configuration,
  load_configuration,
}
use integration_home_assista.Settings.Load.Restart.{loaded-IsUsable, get_configuration-IsUsable}
use integration_home_assista.Controller.Url.Scheme.{SetsScheme}
use integration_home_assista.Controller.State.{new}
use integration_home_assista.Program.{Startup, done, io_error, exits, panics, ◌>>=◌, bool_from_env}
use integration_home_assista.Program.Certificates.{create_single_cert_server_config}
use integration_home_assista.Program.Certificates.Panics.{
  >>=-ne-panics, FitsKey, server_config-ne-panics,
}
use integration_home_assista.Program.Listeners.{
  create_tcp_listeners, listen_http, listen_https, create_tcp_listeners_lem,
}
use integration_home_assista.Program.Metadata.{
  DriverUpdate, Publication, get_driver_metadata, publish_mdns,
}
use integration_home_assista.Program.Start.{
  Host, Running, config_file, expect_configuration, listen_tls, published, start,
}

-- What a start that succeeds has passed.
>>=-eq-done :
    {A B : Type 0} (m : Startup A) (f : A → Startup B) (b : B)
    → (m >>= f) ≡ done b
    → (a : A) × (m ≡ done a) × (f a ≡ done b)
>>=-eq-done (done a) f b h = (a, refl, h)
>>=-eq-done (io_error e) f b h = cc
>>=-eq-done exits f b h = cc
>>=-eq-done panics f b h = cc

module _ {p : Platform} {Socket Cert Key Config Other : Type 0}
    (host : Host p Socket Cert Key Config Other) where
  configuration_read :
      (l : Load (Settings p)) (cfg : Settings p)
      → expect_configuration host l ≡ done cfg
      → l ≡ loaded cfg
  configuration_read l cfg e = ground arith

  tls_listens :
      (certs : CertificateSettings) (l : Option Socket) (t : Option (Socket × Config))
      → listen_tls host certs l ≡ done t
      → is_some t ≡ is_some l
  unfolding listen_tls
  tls_listens certs none t e = ground arith
  tls_listens certs (some listener) t e =
      let c = create_single_cert_server_config host.certificates certs.public certs.private in
      let (server_cfg, _, r) = >>=-eq-done c (λ x. done (some (listener, x))) t e in ground arith

  publishes :
      (port : ℕ) (d : DriverUpdate Other) (r : Option Publication)
      → published host port d ≡ done r
      → is_some r ≡ not (bool_from_env host.var "UC_DISABLE_MDNS_PUBLISH")
  unfolding published
  publishes port d r e = ground arith

  -- The settings that the program has are usable, it listens on a socket, and the call that
  -- publishes its service is made unless that is disabled.
  abbrev pub IsReady : Running p Socket Config → Type 0
  IsReady r =
      IsUsable p r.controller.hass
      × ((is_some r.plain || is_some r.tls) ≡ true)
      × (is_some r.publication ≡ not (bool_from_env host.var "UC_DISABLE_MDNS_PUBLISH"))

  start-IsReady :
      (r : Running p Socket Config)
      → SetsScheme p
      → HasBackoff p
      → ((b : List Socket) (a : String) → host.bind b a ≢ exits)
      → start host ≡ done r
      → IsReady r
  unfolding start new
  start-IsReady r sets backoff binds e =
      let (cfg, e₁, r₁) =
        >>=-eq-done
          (expect_configuration host
            (get_configuration host.config_crate host.user_settings (config_file host)))
          _ r e in
      let (l, e₂, r₂) = >>=-eq-done (create_tcp_listeners host.bind cfg.integration) _ r r₁ in
      let (d, e₃, r₃) =
        >>=-eq-done (get_driver_metadata host.driver_file host.app_version) _ r r₂ in
      let (t, e₄, r₄) = >>=-eq-done (listen_tls host l.certs l.listener_tls) _ r r₃ in
      let (q, e₅, r₅) = >>=-eq-done (published host cfg.integration.http.port d) _ r r₄ in
      let (a₁, a₂, a₃, a₄) = (create_tcp_listeners_lem host.bind cfg.integration binds).0 l e₂ in
      let usable =
        loaded-IsUsable sets backoff host.config_crate (config_file host) host.user_settings cfg
          (configuration_read _ cfg e₁) in
      let b = tls_listens l.certs l.listener_tls t e₄ in
      let c = publishes cfg.integration.http.port d q e₅ in
      let k : cfg.hass ≡ r.controller.hass = ground arith in
      (subst (IsUsable p) k usable, ground arith, ground arith)

  listeners-ne-panics :
      (cfg : IntegrationSettings)
      → ((b : List Socket) (a : String) → host.bind b a ≢ panics)
      → create_tcp_listeners host.bind cfg ≢ panics
  unfolding create_tcp_listeners listen_http listen_https
  listeners-ne-panics cfg h = grind (arith, h)

  tls-ne-panics :
      (certs : CertificateSettings) (l : Option Socket)
      → (is_some l ≡ true → FitsKey host.certificates certs.public certs.private)
      → listen_tls host certs l ≢ panics
  unfolding listen_tls
  tls-ne-panics certs none h = cc
  tls-ne-panics certs (some l) h =
      >>=-ne-panics (create_single_cert_server_config host.certificates certs.public certs.private)
        _ (server_config-ne-panics host.certificates certs.public certs.private (h refl)) λ c _. cc

  published-ne-panics :
      (port : ℕ) (d : DriverUpdate Other)
      → get_driver_metadata host.driver_file host.app_version ≡ done d
      → published host port d ≢ panics
  unfolding published get_driver_metadata publish_mdns
  published-ne-panics port d e = ground arith

  metadata-ne-panics :
      (file : DriverUpdate Other ⊎ String) → get_driver_metadata file host.app_version ≢ panics
  unfolding get_driver_metadata
  metadata-ne-panics file = ground arith

  -- The certificate that the settings name fits its key.
  abbrev pub HasFittingKey : Settings p → Type 0
  HasFittingKey cfg =
      (certs : CertificateSettings)
      → cfg.integration.certs ≡ some certs
      → FitsKey host.certificates certs.public certs.private

  start-ne-panics :
      (cfg : Settings p)
      → ((b : List Socket) (a : String) → (host.bind b a ≢ exits) × (host.bind b a ≢ panics))
      → HasFittingKey cfg
      → get_configuration host.config_crate host.user_settings (config_file host) ≡ loaded cfg
      → start host ≢ panics
  unfolding start
  start-ne-panics cfg binds fits e =
      rw (e, ◌>>=◌)
        (>>=-ne-panics (create_tcp_listeners host.bind cfg.integration) _
          (listeners-ne-panics cfg.integration λ b a. (binds b a).1)
          λ l listens.
            let (_, tls, _, named) =
              (create_tcp_listeners_lem host.bind cfg.integration λ b a. (binds b a).0).0 l
                listens in
            >>=-ne-panics (get_driver_metadata host.driver_file host.app_version) _
              (metadata-ne-panics _)
              λ d r.
                >>=-ne-panics (listen_tls host l.certs l.listener_tls) _
                  (tls-ne-panics l.certs l.listener_tls λ q. fits l.certs (named (sym tls ∙ q)))
                  λ t _.
                    >>=-ne-panics (published host cfg.integration.http.port d) _
                      (published-ne-panics cfg.integration.http.port d r) λ q _. cc)

  -- The crate for URLs sets schemes as it documents, the default back-off factor is not below one,
  -- `bind` returns, and the certificate that the loaded settings name fits its key, where both can be
  -- read. Where the configuration loads without a user file, the start does not panic, whatever the
  -- user file holds; and once the program has started, its settings are usable, it listens on a
  -- socket, and it has called `publish_service` unless that is disabled.
  pub start_lem :
      (base : Settings p)
      → SetsScheme p
      → HasBackoff p
      → ((b : List Socket) (a : String) → (host.bind b a ≢ exits) × (host.bind b a ≢ panics))
      → ((cfg : Settings p)
          → get_configuration host.config_crate host.user_settings (config_file host) ≡ loaded cfg
          → HasFittingKey cfg)
      → load_configuration host.config_crate (config_file host) none ≡ loaded base
      → (start host ≢ panics) × ((r : Running p Socket Config) → start host ≡ done r → IsReady r)
  start_lem base sets backoff binds fits e =
      let (cfg, q, _) =
        get_configuration-IsUsable sets backoff host.config_crate (config_file host)
          host.user_settings base e in
      (
        start-ne-panics cfg binds (fits cfg q) q,
        λ r h. start-IsReady r sets backoff (λ b a. (binds b a).0) h,
      )
