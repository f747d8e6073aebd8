-- ===== src/Controller/State.antt =====
-- The state of the controller (src/controller/mod.rs) with its actor context: the timers and the
-- messages to itself that are pending, and what it has sent.
use integration_home_assista.Prelude.{
  ℕ, suc, ◌+◌, ◌%◌, ◌^◌, String, Bool, false, not, Option, none, some, List, [], ◌∷◌, ◌++◌, ◌==◌,
  keep, if◌then◌else◌, is_empty, ◌&&◌,
}
use integration_home_assista.Prelude.Dict.{Dict}
use integration_home_assista.Platform.{Platform}
use integration_home_assista.Settings.{HomeAssistantSettings, HeartbeatSettings, get_url, get_token}
use integration_home_assista.Api.{DeviceState, disconnected, AvailableIntgEntity}
use integration_home_assista.Controller.Messages.{WsMessage, HaMsg, SelfMsg, Sent}
use integration_home_assista.Controller.Machine.{
  OperationModeState, require_setup, configuration_available, consume,
}

-- A session of a remote. `recipient` is the address of its connection actor.
pub record R2Session : Type 0 where
  pub recipient : ℕ
  pub ws_id : ℕ
  pub standby : Bool
  pub subscribed_entities : List String
  pub get_available_entities_id : Option ℕ
  pub get_entity_states_id : Option ℕ
  pub reconfiguring : Option Bool

-- `R2Session::new`
abbrev pub new_session : ℕ → R2Session
new_session recipient = record {
  recipient = recipient;
  ws_id = 0;
  standby = false;
  subscribed_entities = [];
  get_available_entities_id = none;
  get_entity_states_id = none;
  reconfiguring = none;
}

-- `R2Session::new_msg_id`, on a `u32`.
abbrev pub new_msg_id : R2Session → R2Session × ℕ
new_msg_id s = let id = (s.ws_id + 1) % 2 ^ 32 in (record s { ws_id = id }, id)

-- A pending `notify_later`: its handle, its delay in milliseconds and its message.
pub record Timer : Type 0 where
  pub handle : ℕ
  pub delay : ℕ
  pub message : SelfMsg

-- The request of a connection attempt, fixed when the attempt starts. The frame size is in bytes.
pub record ConnectRequest (p : Platform) : Type 0 where
  pub url : p.Url
  pub token : String
  pub max_frame_size : ℕ
  pub heartbeat : HeartbeatSettings
  pub remote_id : String

-- A future that the controller has spawned: a connection attempt, or the delayed end of the setup.
pub data Future (p : Platform) : Type 0 where
  connecting_future : ConnectRequest p → Future p
  -- The delay in milliseconds, the remote and the final event.
  finish_future : ℕ → String → WsMessage p → Future p

-- What the surroundings answer while one message is handled: whether `try_send` to a session or to
-- a client succeeds, the token files, `UC_SETUP_TIMEOUT`, and the error of writing the settings.
pub record World (p : Platform) : Type 0 where
  pub r2_accepts : ℕ → WsMessage p → Bool
  pub ha_accepts : ℕ → HaMsg p → Bool
  pub token_file : String → Option String
  pub setup_timeout_env : Option String
  pub save_error : HomeAssistantSettings p → Option String

-- The struct, then the actor context: `next_handle` to `sent`, the newest message first.
pub record Controller (p : Platform) : Type 0 where
  pub sessions : Dict R2Session
  pub device_state : DeviceState
  pub hass : HomeAssistantSettings p
  pub ha_client : Option ℕ
  pub ha_client_id : Option String
  pub ha_reconnect_duration : ℕ
  pub ha_reconnect_attempt : ℕ
  pub drv_metadata : p.DriverMetadata
  pub machine : OperationModeState
  pub setup_timeout : Option ℕ
  pub reconnect_handle : Option ℕ
  pub subscribed_entity_ids : Option (List (AvailableIntgEntity p))
  pub remote_id : String
  pub next_handle : ℕ
  pub timers : List Timer
  pub queue : List SelfMsg
  pub futures : List (Future p)
  pub sent : List (Sent p)

module _ {p : Platform} where
  -- `Controller::new`
  unfoldable pub new :
      (String → Option String) → HomeAssistantSettings p → p.DriverMetadata → Controller p
  new token_file hass drv_metadata = record {
    sessions = [];
    device_state = disconnected;
    hass = hass;
    ha_client = none;
    ha_client_id = none;
    ha_reconnect_duration = hass.reconnect.duration;
    ha_reconnect_attempt = 0;
    drv_metadata = drv_metadata;
    machine =
        if p.has_host (get_url token_file hass) && not (is_empty (get_token token_file hass))
        then consume require_setup configuration_available
        else require_setup;
    setup_timeout = none;
    reconnect_handle = none;
    subscribed_entity_ids = none;
    remote_id = "";
    next_handle = 0;
    timers = [];
    queue = [];
    futures = [];
    sent = [];
  }

  -- `ctx.notify`
  abbrev pub notify : SelfMsg → Controller p → Controller p
  notify m c = record c { queue = c.queue ++ m ∷ [] }

  -- `ctx.notify_later`; its handle is `c.next_handle`.
  abbrev pub notify_later : SelfMsg → ℕ → Controller p → Controller p
  notify_later m delay c = record c {
    next_handle = suc c.next_handle;
    timers = record { handle = c.next_handle; delay = delay; message = m } ∷ c.timers;
  }

  -- `ctx.spawn` of a response future.
  abbrev pub spawn : Future p → Controller p → Controller p
  spawn f c = record c { futures = c.futures ++ f ∷ [] }

  -- `do_send` to a client actor, or a `try_send` that succeeded.
  abbrev pub emit : Sent p → Controller p → Controller p
  emit m c = record c { sent = m ∷ c.sent }

abbrev has_other_handle : ℕ → Timer → Bool
has_other_handle h t = not (t.handle == h)

-- The timers that `ctx.cancel_future` leaves.
unfoldable pub without : ℕ → List Timer → List Timer
without h = keep (has_other_handle h)

-- `if let Some(handle) = handle.take() { ctx.cancel_future(handle) }`, on the pending timers.
unfoldable pub cancelled : Option ℕ → List Timer → List Timer
unfolding without
cancelled none ts = ts
cancelled (some h) ts = without h ts
