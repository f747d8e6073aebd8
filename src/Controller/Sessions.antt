-- ===== src/Controller/Sessions.antt =====
-- The messages of the connections of the remotes: src/controller/handler/r2_connection.rs,
-- r2_event.rs and r2_response.rs.
pub mod Kept
pub mod Known
pub mod Flow
pub mod Events
pub mod History
pub mod Version
use integration_home_assista.Prelude.{
  ℕ, String, Bool, true, false, Option, none, some, List, if◌then◌else◌,
}
use integration_home_assista.Prelude.Dict.{Dict, lookup, insert, erase, modify}
use integration_home_assista.Json.{Value, Fields, get_then, as_str, as_object}
use integration_home_assista.Platform.{Platform}
use integration_home_assista.Api.{
  DeviceState, connected, R2Event, connect, disconnect, enter_standby, exit_standby,
  abort_driver_setup, R2Response, runtime_info, version, other_response,
}
use integration_home_assista.Controller.Messages.{
  simple_request, set_remote_id, connect_msg, disconnect_msg, abort_driver_setup_msg,
}
use integration_home_assista.Controller.State.{
  R2Session, new_session, new_msg_id, World, Controller, notify,
}
use integration_home_assista.Controller.Core.{send_device_state, try_send_r2, try_send_ha}

abbrev pub is_connected : DeviceState → Bool
is_connected connected = true
is_connected _ = false

abbrev pub set_standby : Bool → R2Session → R2Session
set_standby b s = record s { standby = b }

module _ {p : Platform} where
  -- `Handler<R2SessionDisconnect>`
  unfoldable pub r2_session_disconnect : String → Controller p → Controller p
  r2_session_disconnect id c = record c { sessions = erase id c.sessions }

module _ {p : Platform} (w : World p) where
  unfoldable pub request_version : String → Option R2Session → Controller p → Controller p
  request_version id none c = c
  request_version id (some s) c =
      let (s', request_id) = new_msg_id s in
      try_send_r2 w s.recipient (simple_request request_id "get_version")
        (record c { sessions = insert id s' c.sessions })

  -- `Handler<NewR2Session>`
  unfoldable pub new_r2_session : String → ℕ → Controller p → Controller p
  new_r2_session id addr c₀ =
      let c =
        send_device_state w id
          (record c₀ { sessions = insert id (new_session addr) c₀.sessions }) in
      request_version id (lookup id c.sessions) c

  -- The arms of `Handler<R2EventMsg>`, for a session that exists.
  unfoldable pub on_event : String → R2Event → Controller p → Controller p
  on_event ws_id connect c =
      send_device_state w ws_id (if is_connected c.device_state then c else notify connect_msg c)
  on_event ws_id disconnect c = notify disconnect_msg c
  on_event ws_id enter_standby c₀ =
      let c = record c₀ { sessions = modify ws_id (set_standby true) c₀.sessions } in
      if c.hass.disconnect_in_standby then notify disconnect_msg c else c
  on_event ws_id exit_standby c₀ =
      let c = record c₀ { sessions = modify ws_id (set_standby false) c₀.sessions } in
      if c.hass.disconnect_in_standby then send_device_state w ws_id (notify connect_msg c) else c
  on_event ws_id abort_driver_setup c = notify (abort_driver_setup_msg ws_id false) c

  -- `Handler<R2EventMsg>`
  unfoldable pub r2_event : String → R2Event → Controller p → Controller p
  r2_event ws_id e c = elim (lookup ws_id c.sessions) [ none ↦ c | some _ ↦ on_event ws_id e c ]

  unfoldable pub tell_remote_id : Option ℕ → Controller p → Controller p
  tell_remote_id none c = c
  tell_remote_id (some addr) c = try_send_ha w addr (set_remote_id c.remote_id) c

  unfoldable pub store_remote_id : Option String → Controller p → Controller p
  store_remote_id none c = c
  store_remote_id (some hostname) c = tell_remote_id c.ha_client (record c { remote_id = hostname })

  -- `msg_data.unwrap().as_object_mut().unwrap()`: `none` is the panic.
  abbrev pub unwrap_object : Option (Value p.F64) → Option (Fields p.F64)
  unwrap_object none = none
  unwrap_object (some v) = as_object v

  -- `Handler<R2ResponseMsg>`; `none` is a panic.
  unfoldable pub r2_response :
      R2Response → Option (Value p.F64) → Controller p → Option (Controller p)
  r2_response runtime_info data_ c = some c
  r2_response version data_ c = elim (unwrap_object data_) [
    | none ↦ none
    | some fs ↦ some (store_remote_id (get_then as_str "hostname" fs) c)
  ]
  r2_response other_response data_ c = some c
