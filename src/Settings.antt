-- ===== src/Settings.antt =====
-- src/configuration.rs: the settings of the Home Assistant connection.
pub mod Valid
pub mod Load
use integration_home_assista.Prelude.{
  ℕ, String, Bool, true, false, Option, none, some, ltb, leb, ◌||◌, if◌then◌else◌, trim, or_else,
  str_eq, is_some, ◌&&◌,
}
use integration_home_assista.Platform.{Platform, Parsed, parsed, failed}

-- Durations in milliseconds.
pub record ReconnectSettings (p : Platform) : Type 0 where
  pub attempts : ℕ
  pub duration : ℕ
  pub duration_max : ℕ
  pub backoff_factor : p.F32

-- Durations in seconds.
pub record HeartbeatSettings : Type 0 where
  pub ping_frames : Bool
  pub interval : ℕ
  pub timeout : ℕ

pub record HomeAssistantSettings (p : Platform) : Type 0 where
  pub url : p.Url
  pub token : String
  pub connection_timeout : ℕ
  pub request_timeout : ℕ
  pub max_frame_size_kb : ℕ
  pub reconnect : ReconnectSettings p
  pub heartbeat : HeartbeatSettings
  pub disconnect_in_standby : Bool

-- `ReconnectSettings::default`
abbrev pub default_reconnect : (p : Platform) → ReconnectSettings p
default_reconnect p = record {
  attempts = 0;
  duration = 1000;
  duration_max = 30000;
  backoff_factor = p.default_backoff;
}

-- `HeartbeatSettings::default`
abbrev pub default_heartbeat : HeartbeatSettings
default_heartbeat = record { ping_frames = false; interval = 20; timeout = 40 }

-- `TOKEN_ID`, and the key of the URL.
abbrev pub token_id : String
token_id = "ws-ha-api"

abbrev pub token_url_key : String
token_url_key = "ws-ha-api-URL"

-- `token_file` is the content of a file below `UC_TOKENS_HOME`, where it can be read.
unfoldable pub get_token_value : (String → Option String) → String → Option String
get_token_value token_file key = elim (token_file key) [ none ↦ none | some v ↦ some (trim v) ]

abbrev to_option : {U : Type 0} → Parsed U → Option U
to_option (parsed u) = some u
to_option (failed e) = none

unfoldable pub get_ext_url : (p : Platform) → (String → Option String) → Option p.Url
get_ext_url p token_file = elim (get_token_value token_file token_url_key) [
  | none ↦ none
  | some url ↦ to_option (p.url_parse url)
]

unfoldable pub has_external_url_and_token : Platform → (String → Option String) → Bool
has_external_url_and_token p token_file =
    is_some (get_token_value token_file token_id) && is_some (get_ext_url p token_file)

module _ {p : Platform} where
  unfoldable pub get_url : (String → Option String) → HomeAssistantSettings p → p.Url
  get_url token_file cfg = or_else (get_ext_url p token_file) cfg.url

  unfoldable pub get_token : (String → Option String) → HomeAssistantSettings p → String
  get_token token_file cfg = or_else (get_token_value token_file token_id) cfg.token

  unfoldable pub set_url : p.Url → HomeAssistantSettings p → HomeAssistantSettings p
  set_url url cfg = record cfg { url = url }

  unfoldable pub set_token : String → HomeAssistantSettings p → HomeAssistantSettings p
  set_token token cfg = record cfg { token = trim token }

-- How `check_cfg_values` ends: with the settings, with the error of the scheme, or with the panic of
-- `set_scheme(…).unwrap()`.
pub data Checked (p : Platform) : Type 0 where
  checked : HomeAssistantSettings p → Checked p
  invalid_scheme : String → Checked p
  panicked : Checked p

module _ {p : Platform} where
  unfoldable pub check_reconnect : ReconnectSettings p → ReconnectSettings p
  check_reconnect r =
      if p.lt_one r.backoff_factor || ltb r.duration 100 || ltb r.duration_max 1000
      then default_reconnect p
      else r

  unfoldable pub replace_scheme : String → HomeAssistantSettings p → Checked p
  replace_scheme s cfg = elim (p.set_scheme s cfg.url) [
    | none ↦ panicked
    | some url ↦ checked (record cfg { url = url })
  ]

  unfoldable pub check_url : HomeAssistantSettings p → Checked p
  check_url cfg =
      let s = p.scheme cfg.url in
      if str_eq s "ws" || str_eq s "wss"
      then checked cfg
      else if str_eq s "http"
      then replace_scheme "ws" cfg
      else if str_eq s "https"
      then replace_scheme "wss" cfg
      else invalid_scheme s

unfoldable pub check_heartbeat : HeartbeatSettings → HeartbeatSettings
check_heartbeat h =
    if ltb h.interval 5 || ltb h.timeout 5 || leb h.timeout h.interval then default_heartbeat else h

-- `check_cfg_values`
unfoldable pub check_cfg_values : {p : Platform} → HomeAssistantSettings p → Checked p
check_cfg_values cfg = check_url (record cfg {
  reconnect = check_reconnect cfg.reconnect;
  heartbeat = check_heartbeat cfg.heartbeat;
})
