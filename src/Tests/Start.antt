-- ===== src/Tests/Start.antt =====
-- The start of the program on the test platform, where the configuration is read by overlays.
use integration_home_assista.Prelude.{
  ℕ, String, Bool, true, false, not, ◌&&◌, Option, none, some, List, [], ◌∷◌, ◌≡◌, ◌≢◌, refl, arith,
  inl, inr, str_eq, eq_iff, ◌==◌, if◌then◌else◌,
}
use integration_home_assista.Settings.{
  HomeAssistantSettings, check_heartbeat, check_reconnect, check_cfg_values, check_url,
}
use integration_home_assista.Settings.Valid.{IsUsable}
use integration_home_assista.Settings.Load.{
  Settings, ConfigCrate, UserFile, loaded, default_integration, default_hass, load_configuration,
  get_configuration, layers,
}
use integration_home_assista.Settings.Load.Restart.{get_configuration-IsUsable}
use integration_home_assista.Program.{done, panics}
use integration_home_assista.Program.Certificates.{
  CertificateFiles, other_item, rsa_key, load_private_key_from_reader, load_private_key_lem,
}
use integration_home_assista.Program.Metadata.{DriverUpdate, get_driver_metadata, published_lem}
use integration_home_assista.Program.Start.{Host, config_file, start}
use integration_home_assista.Program.Start.Ready.{start_lem}
use integration_home_assista.Tests.Fixture.{plain, no_file}
use integration_home_assista.Tests.Values.{plain-SetsScheme, stored}

abbrev base : Settings plain
base = record {
  integration = default_integration;
  hass = default_hass plain ("ws", "ws://homeassistant.local:8123/api/websocket");
}

abbrev overlay : List (Settings plain → Settings plain) → Settings plain → Settings plain
overlay [] s = s
overlay (f ∷ fs) s = overlay fs (f s)

-- The user file holds either the stored settings or nothing that can be read.
abbrev crate : ConfigCrate plain
crate = record {
  Source = Settings plain → Settings plain;
  Config = Settings plain;
  try_from = λ s. inl (λ _. s);
  with_name = λ name s. s;
  user_file = λ text s. if str_eq text "stored" then record s { hass = stored } else s;
  environment = λ s. s;
  build = λ sources. inl (overlay sources base);
  try_deserialize = λ c. inl c;
}

abbrev is_stored : HomeAssistantSettings plain → Bool
is_stored c =
    str_eq c.url.0 "ws"
    && str_eq c.url.1 "ha.local"
    && str_eq c.token "secret"
    && c.connection_timeout == 6
    && c.request_timeout == 6
    && c.max_frame_size_kb == 5120
    && c.reconnect.attempts == 2
    && c.reconnect.duration == 1000
    && c.reconnect.duration_max == 30000
    && c.reconnect.backoff_factor == 15
    && not c.heartbeat.ping_frames
    && c.heartbeat.interval == 0
    && c.heartbeat.timeout == 40
    && c.disconnect_in_standby

abbrev disk : UserFile plain
disk = record {
  to_string_pretty = λ c. if is_stored c then inl "stored" else inr "cannot be printed";
  write = λ text. none;
}

is_stored-eq : (c : HomeAssistantSettings plain) → is_stored c ≡ true → stored ≡ c
is_stored-eq c h =
    ground (arith, eq_iff c.url.0 "ws", eq_iff c.url.1 "ha.local", eq_iff c.token "secret")

stored_on_top :
    (defaults : Settings plain → Settings plain) (filename : Option String)
    → (overlay (defaults ∷ layers crate filename (some "stored")) base).hass ≡ stored
stored_on_top defaults none = refl
stored_on_top defaults (some name) = refl

get_configuration-IsUsable_example :
    (cfg : Settings plain) × (get_configuration crate (some "nothing that can be read") none
      ≡ loaded cfg)
    × IsUsable plain cfg.hass
unfolding load_configuration check_cfg_values check_url check_reconnect check_heartbeat
get_configuration-IsUsable_example =
    get_configuration-IsUsable plain-SetsScheme refl crate none (some "nothing that can be read")
      base refl

abbrev driver_file : DriverUpdate (Unit {0})
driver_file = record {
  driver_id = none;
  token = some "secret";
  name = none;
  version = none;
  developer = some (some "a=b");
  pwd_protected = none;
  others = tt;
}

abbrev metadata : DriverUpdate (Unit {0})
metadata = record driver_file {
  driver_id = some "home-assistant";
  token = none;
  name = some (("en", "Home Assistant") ∷ []);
  version = some "1.0";
}

published_lem_example : metadata.token ≡ none
unfolding get_driver_metadata
published_lem_example = (published_lem (λ name. some "a=b") "1.0" 8000 driver_file metadata refl).0

-- A certificate stands before the key.
load_private_key_lem_example :
    load_private_key_from_reader {Key = ℕ} (inl other_item ∷ inl (rsa_key 5) ∷ []) ≡ done 5
load_private_key_lem_example =
    (load_private_key_lem {Key = ℕ} (other_item ∷ []) [] (refl, tt)).1 (rsa_key 5) 5 refl

abbrev files : CertificateFiles ℕ ℕ ℕ
files = record {
  exists = λ f. true;
  open_file = λ f. inl tt;
  certs = λ f. inl (1 ∷ []);
  read_items = λ f. inl (rsa_key 5) ∷ [];
  with_single_cert = λ certs key. some key;
}

abbrev host : Host plain ℕ ℕ ℕ ℕ (Unit {0})
host = record {
  config_argument = none;
  default_file_exists = false;
  var = no_file;
  token_file = no_file;
  user_settings = some "nothing that can be read";
  config_crate = crate;
  bind = λ sockets address. done 3;
  certificates = files;
  driver_file = inl driver_file;
  app_version = "1.0";
  name_text = λ name. none;
  metadata = λ d. tt;
}

start_lem_example : start host ≢ panics
unfolding load_configuration config_file check_cfg_values check_url check_reconnect check_heartbeat
start_lem_example =
    (start_lem host base plain-SetsScheme refl (λ b a. (cc, cc)) (λ cfg q certs e chain key r k. cc)
      refl).0
