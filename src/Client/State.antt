-- ===== src/Client/State.antt =====
-- The client (src/client/mod.rs) with its actor context: the timers and the messages to itself that
-- are pending, what was written to the socket, and what was sent to the controller.
use Prim.Native.String
use integration_home_assista.Prelude.{
  ℕ, suc, ◌+◌, ◌%◌, ◌^◌, String, Bool, false, Option, none, some, List, [], ◌∷◌, ◌++◌, or_else,
  str_eq, decimal, if◌then◌else◌,
}
use integration_home_assista.Json.{Value}
use integration_home_assista.Platform.{Platform}
use integration_home_assista.Settings.{HeartbeatSettings}
use integration_home_assista.Api.{EntityChange, AvailableIntgEntity}
use integration_home_assista.Controller.Connection.{ConnectionState}

-- `CloseCode`, as far as the code names it.
pub data CloseCode : Type 0 where
  normal invalid unsupported : CloseCode

-- `ws::Message`, as far as the client writes it: a text is the JSON value that it prints.
pub data WsFrame (p : Platform) : Type 0 where
  text_frame : Value p.F64 → WsFrame p
  ping_frame : WsFrame p
  pong_frame : List ℕ → WsFrame p
  close_frame : CloseCode → WsFrame p

-- `Frame`, or the protocol error in its place.
pub data Incoming : Type 0 where
  protocol_error : Incoming
  text_in binary_in ping_in pong_in : List ℕ → Incoming
  close_in continuation_in : Incoming

-- A pending `run_later`: the heartbeat, the forced stop after a Close frame, and the next check after
-- the component, with the time of the authentication.
pub data Later : Type 0 where
  heartbeat_later force_stop_later : Later
  component_check_later : ℕ → Later

-- Its handle, and its delay in milliseconds.
pub record Delayed : Type 0 where
  pub handle : ℕ
  pub delay : ℕ
  pub task : Later

-- What the client tells the controller.
pub data Notice (p : Platform) : Type 0 where
  connection_event : String → ConnectionState → Notice p
  entity_event : String → EntityChange p → Notice p
  available_entities set_available_entities : String → List (AvailableIntgEntity p) → Notice p

-- The struct, then the sink and the actor context. Times are in milliseconds. `written` and
-- `notices` have the newest entry first; `stopping` is `ctx.stop`.
pub record HaClient (p : Platform) : Type 0 where
  pub id : String
  pub server : p.Url
  pub ws_id : ℕ
  pub access_token : String
  pub uc_ha_component : Bool
  pub uc_ha_component_info_id : Option ℕ
  pub uc_ha_component_check_interval : ℕ
  -- In seconds.
  pub uc_ha_component_check_duration : Option ℕ
  pub uc_ha_comp_check_handle : Option ℕ
  pub subscribed_events : Bool
  pub subscribe_standard_events_id : Option ℕ
  pub subscribe_uc_events_id : Option ℕ
  pub subscribe_configure_id : Option ℕ
  pub entity_states_id : Option ℕ
  pub last_hb : ℕ
  pub heartbeat : HeartbeatSettings
  pub subscribed_entities : List String
  pub authenticated : Bool
  pub remote_id : String
  pub sink_closed : Bool
  pub stopping : Bool
  pub next_handle : ℕ
  pub delayed : List Delayed
  pub queue : List CloseCode
  pub written : List (WsFrame p)
  pub notices : List (Notice p)

-- What the surroundings answer while one message is handled: the time, whether the sink takes a
-- frame, whether the controller takes a notice, and whether the context is connected; with the version
-- of the build.
pub record Surroundings (p : Platform) : Type 0 where
  pub now : ℕ
  pub takes_frame : WsFrame p → Bool
  pub takes_notice : Notice p → Bool
  pub context_connected : Bool
  pub app_version : String

-- The `id` of `HomeAssistantClient::start`, with the number of the client in the process.
unfoldable pub client_id : (p : Platform) → p.Url → ℕ → String
client_id p url seq = String.◌++◌ (or_else (p.host_str url) (p.url_text url)) (
    String.◌++◌ ":" (
      String.◌++◌ (decimal 5 (or_else (p.port_or_known_default url) 0))
        (String.◌++◌ "-" (decimal 10 seq))))

module _ {p : Platform} where
  -- `HomeAssistantClient::start`, up to `started`; `none` is the panic "invalid scheme".
  unfoldable pub start_client : p.Url → String → HeartbeatSettings → ℕ → ℕ → Option (HaClient p)
  unfolding client_id
  start_client url access_token heartbeat seq now =
      elim (p.set_scheme (if str_eq (p.scheme url) "wss" then "https" else "http") url) [
        | none ↦ none
        | some server ↦ some (record {
          id = client_id p url seq;
          server = p.without_path server;
          ws_id = 0;
          access_token = access_token;
          uc_ha_component = false;
          uc_ha_component_info_id = none;
          uc_ha_component_check_interval = 5000;
          uc_ha_component_check_duration = none;
          uc_ha_comp_check_handle = none;
          subscribed_events = false;
          subscribe_standard_events_id = none;
          subscribe_uc_events_id = none;
          subscribe_configure_id = none;
          entity_states_id = none;
          last_hb = now;
          heartbeat = heartbeat;
          subscribed_entities = [];
          authenticated = false;
          remote_id = "";
          sink_closed = false;
          stopping = false;
          next_handle = 0;
          delayed = [];
          queue = [];
          written = [];
          notices = [];
        })
      ]

  -- `new_msg_id`, on a `u32`.
  abbrev pub next_id : HaClient p → ℕ
  next_id c = (c.ws_id + 1) % 2 ^ 32

  -- `ctx.notify(Close { .. })`
  abbrev pub notify_close : CloseCode → HaClient p → HaClient p
  notify_close code c = record c { queue = c.queue ++ code ∷ [] }

  -- `ctx.run_later`; its handle is `c.next_handle`.
  abbrev pub run_later : Later → ℕ → HaClient p → HaClient p
  run_later task delay c = record c {
    next_handle = suc c.next_handle;
    delayed = record { handle = c.next_handle; delay = delay; task = task } ∷ c.delayed;
  }

  -- `do_send` to the controller, or a `try_send` that succeeded.
  abbrev pub tell : Notice p → HaClient p → HaClient p
  tell n c = record c { notices = n ∷ c.notices }
