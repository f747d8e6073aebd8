-- ===== src/Service/Light.antt =====
-- src/client/service/light.rs
pub mod Ranges
use Prim.Native.String
use integration_home_assista.Prelude.{
  ℕ, ◌+◌, ◌-◌, ◌*◌, ◌/◌, ◌%◌, ◌^◌, leb, String, Bool, Option, none, some, if◌then◌else◌, decimal,
}
use integration_home_assista.Json.{
  Value, Items, Fields, end, uint, arr, obj, nil, cons, put, get_then, as_u64,
}
use integration_home_assista.Platform.{Platform}
use integration_home_assista.Errors.{Result, ok, err, ◌>>=◌, bad_request}
use integration_home_assista.Api.{EntityCommand}
use integration_home_assista.Service.Commands.{
  LightCommand, on, off, toggle, CommandNames, ServiceCall, cmd_from_str,
}

-- The arithmetic is that of `u16`, where release builds wrap around.
unfoldable pub color_temp_percent_to_mired : ℕ → ℕ → ℕ → Result ℕ
color_temp_percent_to_mired value min_mireds max_mireds =
    if leb max_mireds min_mireds
    then err (
        bad_request (
          String.◌++◌ "Invalid min_mireds or max_mireds value! min_mireds=" (
            String.◌++◌ (decimal 5 min_mireds)
              (String.◌++◌ ", max_mireds=" (decimal 5 max_mireds)))))
    else if leb value 100
    then ok (((value % 2 ^ 16 * (max_mireds - min_mireds)) % 2 ^ 16 / 100 + min_mireds) % 2 ^ 16)
    else err (
        bad_request (
          String.◌++◌ "Invalid color_temperature value "
            (String.◌++◌ (decimal 20 value) ": Valid: 0..100")))

module _ {F : Type 0} where
  unfoldable pub light_brightness : Fields F → Fields F → Fields F
  light_brightness params data_ = elim (get_then as_u64 "brightness" params) [
    | none ↦ data_
    | some b ↦ if leb b 255 then put "brightness" (uint b) data_ else data_
  ]

  unfoldable pub light_color_temp : Fields F → Fields F → Result (Fields F)
  light_color_temp params data_ = elim (get_then as_u64 "color_temperature" params) [
    | none ↦ ok data_
    | some pct ↦ do
      mireds ← color_temp_percent_to_mired pct 150 500
      ok (put "color_temp" (uint mireds) data_)
  ]

  abbrev put_color : ℕ → Option ℕ → Fields F → Fields F
  put_color hue none data_ = data_
  put_color hue (some saturation) data_ =
      if leb saturation 255
      then put "hs_color" (arr (cons (uint hue) (cons (uint (saturation * 100 / 255)) nil))) data_
      else data_

  unfoldable pub light_color : Fields F → Fields F → Fields F
  light_color params data_ = elim (get_then as_u64 "hue" params) [
    | none ↦ data_
    | some hue ↦
        if leb hue 360 then put_color hue (get_then as_u64 "saturation" params) data_ else data_
  ]

  unfoldable pub light_data : Option (Fields F) → Result (Fields F)
  light_data none = ok end
  light_data (some params) = do
    data_ ← light_color_temp params (light_brightness params end)
    ok (light_color params data_)

module _ {p : Platform} where
  unfoldable pub light_call : EntityCommand p → LightCommand → Result (ServiceCall p)
  light_call msg on = do data_ ← light_data msg.params; ok ("turn_on", some (obj data_))
  light_call msg off = ok ("turn_off", none)
  light_call msg toggle = ok ("Toggle", none)

  unfoldable pub handle_light : CommandNames → EntityCommand p → Result (ServiceCall p)
  handle_light names msg = cmd_from_str names names.light msg.cmd_id >>= light_call msg
