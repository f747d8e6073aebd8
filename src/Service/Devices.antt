-- ===== src/Service/Devices.antt =====
-- src/client/service/cover.rs, switch.rs, button.rs and remote.rs
pub mod Button
use Prim.Native.String
use Prim.Native.Char.{code}
use integration_home_assista.Prelude.{
  ℕ, leb, ◌==◌, String, Bool, true, false, Option, none, some, if◌then◌else◌, or_else, str_eq, ◌||◌,
  ◌&&◌,
}
use integration_home_assista.Json.{
  Value, Fields, end, field, uint, float, str, obj, arr, put, get, get_then, as_str, as_u64,
}
use integration_home_assista.Platform.{Platform}
use integration_home_assista.Errors.{Result, ok, err, ◌>>=◌, bad_request}
use integration_home_assista.Api.{EntityCommand}
use integration_home_assista.Service.Commands
use integration_home_assista.Service.Commands.{
  CoverCommand, open_cover, close_cover, stop, position, SwitchCommand, ButtonCommand, push,
  RemoteCommand, send_cmd, send_cmd_sequence, CommandNames, ServiceCall, cmd_from_str,
  get_required_params,
}

-- `entity_id.split('.')`: the first part, and the second one if there is a dot.
unfoldable pub split_dots : String → String × Option String
split_dots String.[] = (String.[], none)
split_dots (String.◌∷◌ c s) =
    let (l, r) = split_dots s in if code c == b'.' then (String.[], some l) else (String.◌∷◌ c l, r)

module _ (p : Platform) where
  unfoldable pub set_position : Option (Fields p.F64) → Value p.F64
  set_position none = obj end
  set_position (some params) = elim (get_then as_u64 "position" params) [
    | none ↦ obj end
    | some pos ↦ if leb pos 100 then obj (put "position" (uint pos) end) else obj end
  ]

  unfoldable pub cover_call : EntityCommand p → CoverCommand → Result (ServiceCall p)
  cover_call msg open_cover = ok ("open_cover", none)
  cover_call msg close_cover = ok ("close_cover", none)
  cover_call msg stop = ok ("stop_cover", none)
  cover_call msg position = ok ("set_cover_position", some (set_position msg.params))

  unfoldable pub handle_cover : CommandNames → EntityCommand p → Result (ServiceCall p)
  handle_cover names msg = cmd_from_str names names.cover msg.cmd_id >>= cover_call msg

  unfoldable pub switch_call : SwitchCommand → Result (ServiceCall p)
  switch_call SwitchCommand.on = ok ("turn_on", none)
  switch_call SwitchCommand.off = ok ("turn_off", none)
  switch_call SwitchCommand.toggle = ok ("Toggle", none)

  unfoldable pub handle_switch : CommandNames → EntityCommand p → Result (ServiceCall p)
  handle_switch names msg = cmd_from_str names names.switch msg.cmd_id >>= switch_call

  -- The service of a button; `none` is the panic of `entity[1]`.
  unfoldable pub button_service : String × Option String → Option String
  button_service (domain, name) =
      if str_eq domain "script"
      then name
      else if str_eq domain "scene"
      then some "turn_on"
      else some "press"

  -- `none` is a panic.
  unfoldable pub handle_button : CommandNames → EntityCommand p → Option (Result (ServiceCall p))
  handle_button names msg = elim (cmd_from_str names names.button msg.cmd_id) [
    | err e ↦ some (err e)
    | ok push ↦ elim (button_service (split_dots msg.entity_id)) [
      | none ↦ none
      | some service ↦ some (ok (service, none))
    ]
  ]

  -- The value of `params.command` if it is a text, that of `params.sequence` if it is a list.
  unfoldable pub command_value : Bool → Option (Value p.F64) → Option (Value p.F64)
  command_value is_sequence (some (arr xs)) = if is_sequence then some (arr xs) else none
  command_value is_sequence (some (str s)) = if is_sequence then none else some (str s)
  command_value is_sequence _ = none

  -- `data.insert(key, …)` of a time in milliseconds, where `params` has one.
  unfoldable pub put_time : String → String → Fields p.F64 → Fields p.F64 → Fields p.F64
  put_time key param params data_ = elim (get_then as_u64 param params) [
    | none ↦ data_
    | some ms ↦ put key (float (p.thousandths ms)) data_
  ]

  unfoldable pub put_repeat : Fields p.F64 → Fields p.F64 → Fields p.F64
  put_repeat params data_ = elim (get_then as_u64 "repeat" params) [
    | none ↦ data_
    | some n ↦ put "num_repeats" (uint n) data_
  ]

  unfoldable pub create_command : EntityCommand p → Bool → Result (ServiceCall p)
  create_command msg is_sequence = do
    let cmd = if is_sequence then "sequence" else "command"
    params ← get_required_params msg
    elim (command_value is_sequence (get cmd params)) [
      | none ↦ err (bad_request (String.◌++◌ "Invalid or missing attribute: params." cmd))
      | some v ↦ ok (
        "send_command",
        some (
            obj (
              put_time "hold_secs" "hold" params
                (put_time "delay_secs" "delay" params (put_repeat params (put "command" v end))))),
      )
    ]

  unfoldable pub remote_call : EntityCommand p → RemoteCommand → Result (ServiceCall p)
  remote_call msg RemoteCommand.on = ok ("turn_on", none)
  remote_call msg RemoteCommand.off = ok ("turn_off", none)
  remote_call msg RemoteCommand.toggle = ok ("toggle", none)
  remote_call msg send_cmd = create_command msg false
  remote_call msg send_cmd_sequence = create_command msg true

  unfoldable pub handle_remote : CommandNames → EntityCommand p → Result (ServiceCall p)
  handle_remote names msg = cmd_from_str names names.remote msg.cmd_id >>= remote_call msg
