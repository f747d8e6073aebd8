-- ===== src/Program/Start.antt =====
-- src/main.rs: the function `main`, up to the server that runs.
pub mod Ready
use integration_home_assista.Prelude.{
  ℕ, String, Bool, true, false, Option, none, some, List, ◌≡◌, ◌≢◌, refl, arith, or_else, is_some,
  not, if◌then◌else◌, inl, inr, ◌⊎◌, ◌||◌,
}
use integration_home_assista.Prelude.Dict.{Dict}
use integration_home_assista.Platform.{Platform}
use integration_home_assista.Settings.Load.{
  Settings, Load, loaded, load_failed, load_panicked, ConfigCrate, get_configuration,
  CertificateSettings, WebSocketSettings, default_websocket,
}
use integration_home_assista.Controller.State.{Controller, new}
use integration_home_assista.Program.{Startup, done, io_error, exits, panics, ◌>>=◌, bool_from_env}
use integration_home_assista.Program.Certificates.{
  CertificateFiles, create_single_cert_server_config,
}
use integration_home_assista.Program.Listeners.{Listeners, create_tcp_listeners}
use integration_home_assista.Program.Metadata.{
  DriverUpdate, Publication, get_driver_metadata, publish_mdns,
}

-- What the program finds where it starts: the argument `--config` and whether the default file exists,
-- the environment, the files, the sockets, the driver file and the crates.
pub record Host (p : Platform) (Socket Cert Key Config Other : Type 0) : Type 1 where
  pub config_argument : Option String
  pub default_file_exists : Bool
  pub var : String → Option String
  pub token_file : String → Option String
  pub user_settings : Option String
  pub config_crate : ConfigCrate p
  pub bind : List Socket → String → Startup Socket
  pub certificates : CertificateFiles Cert Key Config
  pub driver_file : DriverUpdate Other ⊎ String
  pub app_version : String
  pub name_text : Option (Dict String) → Option String
  pub metadata : DriverUpdate Other → p.DriverMetadata

-- The server that runs, with the controller as it starts and what is published.
pub record Running (p : Platform) (Socket Config : Type 0) : Type 0 where
  pub controller : Controller p
  pub websocket_settings : WebSocketSettings
  pub plain : Option Socket
  pub tls : Option (Socket × Config)
  pub publication : Option Publication

module _ {p : Platform} {Socket Cert Key Config Other : Type 0}
    (host : Host p Socket Cert Key Config Other) where
  -- `cfg_file`
  unfoldable pub config_file : Option String
  config_file = elim host.config_argument [
    | some c ↦ some c
    | none ↦ if host.default_file_exists then some "configuration.yaml" else none
  ]

  -- `expect("Failed to read configuration")`
  abbrev pub expect_configuration : Load (Settings p) → Startup (Settings p)
  expect_configuration (loaded cfg) = done cfg
  expect_configuration (load_failed e) = panics
  expect_configuration load_panicked = panics

  unfoldable pub listen_tls :
      CertificateSettings → Option Socket → Startup (Option (Socket × Config))
  listen_tls certs none = done none
  listen_tls certs (some listener) = do
    server_cfg ← create_single_cert_server_config host.certificates certs.public certs.private
    done (some (listener, server_cfg))

  unfoldable pub published : ℕ → DriverUpdate Other → Startup (Option Publication)
  published api_port driver_metadata =
      if not (bool_from_env host.var "UC_DISABLE_MDNS_PUBLISH")
      then (do
        publication ← publish_mdns host.name_text host.app_version api_port driver_metadata
        done (some publication))
      else done none

  -- `main`
  unfoldable pub start : Startup (Running p Socket Config)
  start = do
    cfg ← expect_configuration (get_configuration host.config_crate host.user_settings config_file)
    listeners ← create_tcp_listeners host.bind cfg.integration
    driver_metadata ← get_driver_metadata host.driver_file host.app_version
    tls ← listen_tls listeners.certs listeners.listener_tls
    publication ← published cfg.integration.http.port driver_metadata
    done (record {
      controller = new host.token_file cfg.hass (host.metadata driver_metadata);
      websocket_settings = or_else cfg.integration.websocket default_websocket;
      plain = listeners.listener;
      tls = tls;
      publication = publication;
    })
