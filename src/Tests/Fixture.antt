-- ===== src/Tests/Fixture.antt =====
-- A platform on which the model computes: a URL is its scheme with its host, and a factor is given in
-- tenths.
use integration_home_assista.Prelude.{
  ℕ, ◌*◌, ◌/◌, String, true, Option, none, some, [], ◌∷◌, inl, inr, is_empty, if◌then◌else◌, leb,
  ltb,
}
use integration_home_assista.Platform.{Platform, parsed, failed, relative_url_without_base}
use integration_home_assista.Settings.{HomeAssistantSettings, default_reconnect, default_heartbeat}
use integration_home_assista.Api.{Codec, SetupDriver, disconnected}
use integration_home_assista.Controller.Machine.{OperationModeState, running}
use integration_home_assista.Controller.State.{World, Controller, R2Session, new_session}

abbrev pub plain : Platform
plain = record {
  Url = String × String;
  url_parse = λ s. if is_empty s then failed relative_url_without_base else parsed ("ws", s);
  scheme = λ u. u.0;
  set_scheme = λ s u. some (s, u.1);
  host_str = λ u. some u.1;
  has_host = λ u. true;
  port_or_known_default = λ u. some 8123;
  url_text = λ u. u.1;
  without_path = λ u. u;
  F32 = ℕ;
  f32_from_str = λ s. none;
  ge_one = leb 10;
  lt_one = λ n. ltb n 10;
  scale_ms = λ ms n. ms * n / 10;
  default_backoff = 15;
  F64 = ℕ;
  f64_of_uint = λ n. n;
  f64_of_negative = λ n. 0;
  hundredths = λ n. n / 100;
  thousandths = λ n. n / 1000;
  DriverMetadata = Unit;
}

abbrev pub home : HomeAssistantSettings plain
home = record {
  url = ("ws", "ha.local");
  token = "secret";
  connection_timeout = 6;
  request_timeout = 6;
  max_frame_size_kb = 5120;
  reconnect = record (default_reconnect plain) { attempts = 2 };
  heartbeat = default_heartbeat;
  disconnect_in_standby = true;
}

abbrev pub no_file : String → Option String
no_file _ = none

abbrev pub world : World plain
world = record {
  r2_accepts = λ r m. true;
  ha_accepts = λ a m. true;
  token_file = no_file;
  setup_timeout_env = none;
  save_error = λ cfg. none;
}

abbrev pub driver : SetupDriver
driver = record { reconfigure = some true; setup_data = [] }

abbrev pub codec : Codec plain
codec = record {
  message_name = λ r. "name";
  setup_driver_data = λ v. inl driver;
  setup_user_data = λ v. inr "no data";
  subscribe_events_data = λ v. inl ("light.a" ∷ []);
  entity_command_data = λ v. inr "no command";
  driver_name = none;
  api_version = "0";
  app_version = "0";
}

-- A remote that asked for its entities and for their states.
abbrev pub remote : R2Session
remote = record (new_session 7) {
  get_available_entities_id = some 4;
  get_entity_states_id = some 5;
  subscribed_entities = "light.b" ∷ [];
  reconfiguring = some true;
}

abbrev pub with_mode : OperationModeState → Controller plain
with_mode mode = record {
  sessions = ("r", remote) ∷ [];
  device_state = disconnected;
  hass = home;
  ha_client = none;
  ha_client_id = none;
  ha_reconnect_duration = 1000;
  ha_reconnect_attempt = 0;
  drv_metadata = tt;
  machine = mode;
  setup_timeout = none;
  reconnect_handle = none;
  subscribed_entity_ids = none;
  remote_id = "";
  next_handle = 0;
  timers = [];
  queue = [];
  futures = [];
  sent = [];
}

abbrev pub idle : Controller plain
idle = with_mode running
