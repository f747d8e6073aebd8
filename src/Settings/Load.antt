-- ===== src/Settings/Load.antt =====
-- src/configuration.rs: all settings of the program, how a start loads them, and how the setup saves
-- those of the Home Assistant connection. The crate `config` and the printer of `serde` are parameters,
-- and so is the user file: its content, where the file exists.
pub mod Restart
use Prim.Native.String.{◌++◌ as join}
use integration_home_assista.Prelude.{
  ℕ, String, Bool, true, false, Option, none, some, List, [], ◌∷◌, ◌++◌, ◌⊎◌, inl, inr, or_else,
}
use integration_home_assista.Errors.{Result, ok, err, serialization_error, internal_server_error}
use integration_home_assista.Platform.{Platform, parsed, failed}
use integration_home_assista.Settings.{
  HeartbeatSettings, HomeAssistantSettings, default_reconnect, default_heartbeat, checked,
  invalid_scheme, panicked, check_cfg_values,
}

pub record WebServerSettings : Type 0 where
  pub enabled : Bool
  pub port : ℕ

pub record CertificateSettings : Type 0 where
  pub public : String
  pub private : String

pub record WebSocketSettings : Type 0 where
  pub token : Option String
  pub heartbeat : HeartbeatSettings

pub record IntegrationSettings : Type 0 where
  pub interface : String
  pub http : WebServerSettings
  pub https : WebServerSettings
  pub certs : Option CertificateSettings
  pub websocket : Option WebSocketSettings

pub record Settings (p : Platform) : Type 0 where
  pub integration : IntegrationSettings
  pub hass : HomeAssistantSettings p

-- `CertificateSettings::default`, `WebSocketSettings::default` and `IntegrationSettings::default`
abbrev pub default_certificates : CertificateSettings
default_certificates = record { public = ""; private = "" }

abbrev pub default_websocket : WebSocketSettings
default_websocket = record { token = none; heartbeat = default_heartbeat }

abbrev pub default_integration : IntegrationSettings
default_integration = record {
  interface = "0.0.0.0";
  http = record { enabled = true; port = 8000 };
  https = record { enabled = false; port = 9443 };
  certs = none;
  websocket = none;
}

-- `HomeAssistantSettings::default`, with the URL that was parsed.
abbrev pub default_hass : (p : Platform) → p.Url → HomeAssistantSettings p
default_hass p url = record {
  url = url;
  token = "";
  connection_timeout = 6;
  request_timeout = 6;
  max_frame_size_kb = 5120;
  reconnect = default_reconnect p;
  heartbeat = default_heartbeat;
  disconnect_in_standby = true;
}

-- `Result<A, ConfigError>`, or a panic.
pub data Load (A : Type 0) : Type 0 where
  loaded : A → Load A
  load_failed : String → Load A
  load_panicked : Load A

infixl 5 ◌>>=◌
abbrev pub ◌>>=◌ : {A B : Type 0} → Load A → (A → Load B) → Load B
loaded a >>= next = next a
load_failed e >>= next = load_failed e
load_panicked >>= next = load_panicked

-- The operator `?` on a result of the crate.
abbrev pub attempt : {A : Type 0} → A ⊎ String → Load A
attempt (inl a) = loaded a
attempt (inr e) = load_failed e

-- The crate `config`: its sources, a later one overriding the earlier ones, and its builder.
-- `user_file` is `File::from`, of a file with the content, and `environment` the source with the
-- prefix UC.
pub record ConfigCrate (p : Platform) : Type 1 where
  pub Source : Type 0
  pub Config : Type 0
  pub try_from : Settings p → Source ⊎ String
  pub with_name : String → Source
  pub user_file : String → Source
  pub environment : Source
  pub build : List Source → Config ⊎ String
  pub try_deserialize : Config → Settings p ⊎ String

abbrev pub listed : {A B : Type 0} → (A → B) → Option A → List B
listed f none = []
listed f (some a) = f a ∷ []

-- `Settings::default`, which unwraps the default URL.
unfoldable pub default_settings : (p : Platform) → Load (Settings p)
default_settings p = elim (p.url_parse "ws://homeassistant.local:8123/api/websocket") [
  | failed e ↦ load_panicked
  | parsed url ↦ loaded (record { integration = default_integration; hass = default_hass p url })
]

-- `check_cfg_values`, of all settings.
unfoldable pub check_settings : {p : Platform} → Settings p → Load (Settings p)
check_settings settings = elim (check_cfg_values settings.hass) [
  | checked hass ↦ loaded (record settings { hass = hass })
  | invalid_scheme scheme ↦
      load_failed (join "invalid scheme in home_assistant.url: " (join scheme ". Valid: [ws, wss]"))
  | panicked ↦ load_panicked
]

module _ {p : Platform} (crate : ConfigCrate p) where
  -- The layers above the defaults, the lowest first.
  abbrev pub layers : Option String → Option String → List crate.Source
  layers filename user_config =
      listed crate.with_name filename
      ++ (listed crate.user_file user_config ++ crate.environment ∷ [])

  unfoldable pub load_configuration : Option String → Option String → Load (Settings p)
  unfolding default_settings check_settings
  load_configuration filename user_config = do
    settings ← default_settings p
    defaults ← attempt (crate.try_from settings)
    config ← attempt (crate.build (defaults ∷ layers filename user_config))
    settings ← attempt (crate.try_deserialize config)
    check_settings settings

  -- An error with the user file is only logged.
  unfoldable pub get_configuration : Option String → Option String → Load (Settings p)
  get_configuration user_settings filename = elim user_settings [
    | none ↦ load_configuration filename none
    | some content ↦
        let retried = load_configuration filename none in
        elim (load_configuration filename (some content)) [
          | loaded cfg ↦ loaded cfg
          | load_failed e ↦ retried
          | load_panicked ↦ load_panicked
        ]
  ]

-- `serde_json::to_string_pretty` of the wrapped settings, and `fs::write` of the user file: its error,
-- with what the file holds then.
pub record UserFile (p : Platform) : Type 0 where
  pub to_string_pretty : HomeAssistantSettings p → String ⊎ String
  pub write : String → Option (String × Option String)

-- The result, with the content of the user file from then on.
unfoldable pub save_user_settings :
    {p : Platform}
    → UserFile p
    → HomeAssistantSettings p
    → Option String
    → Result (Unit {0}) × Option String
save_user_settings disk cfg content = elim (disk.to_string_pretty cfg) [
  | inr e ↦ (err (serialization_error e), content)
  | inl text ↦ elim (disk.write text) [
    | none ↦ (ok tt, some text)
    | some (e, left) ↦
        (err (internal_server_error (join "Error saving user configuration: " e)), left)
  ]
]

-- The folder and the name of the user file, which are joined.
unfoldable user_settings_path : (String → Option String) → String × String
user_settings_path var =
    (or_else (var "UC_CONFIG_HOME") "", or_else (var "UC_USER_CFG_FILENAME") "home-assistant.json")
