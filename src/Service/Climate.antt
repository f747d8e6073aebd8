-- ===== src/Service/Climate.antt =====
-- src/client/service/climate.rs
use Prim.Native.String
use integration_home_assista.Prelude.{String, Option, none, some, if◌then◌else◌, or_else, str_eq}
use integration_home_assista.Json.{
  Value, Fields, end, field, uint, negative, float, str, obj, put, get_then, as_str,
}
use integration_home_assista.Platform.{Platform}
use integration_home_assista.Errors.{Result, ok, err, ◌>>=◌, bad_request}
use integration_home_assista.Api.{EntityCommand}
use integration_home_assista.Service.Commands.{
  ClimateCommand, on, off, hvac_mode, target_temperature, CommandNames, ServiceCall, cmd_from_str,
  get_required_params, copy_entry,
}

-- The mode of Home Assistant, for a mode of a remote.
unfoldable pub hvac_mode_of : String → Option String
hvac_mode_of mode =
    if str_eq mode "OFF"
    then some "off"
    else if str_eq mode "HEAT"
    then some "heat"
    else if str_eq mode "COOL"
    then some "cool"
    else if str_eq mode "HEAT_COOL"
    then some "heat_cool"
    else if str_eq mode "AUTO"
    then some "auto"
    else if str_eq mode "FAN"
    then some "fan_only"
    else none

module _ (p : Platform) where
  -- `Value::as_f64`
  unfoldable pub as_f64 : Value p.F64 → Option p.F64
  as_f64 (uint n) = some (p.f64_of_uint n)
  as_f64 (negative n) = some (p.f64_of_negative n)
  as_f64 (float x) = some x
  as_f64 _ = none

  unfoldable pub set_hvac_mode : Fields p.F64 → Result (ServiceCall p)
  set_hvac_mode params =
      let mode = or_else (get_then as_str "hvac_mode" params) "" in
      elim (hvac_mode_of mode) [
        | none ↦
            err (bad_request (String.◌++◌ "Invalid or missing params.hvac_mode attribute: " mode))
        | some m ↦ ok (
          "set_hvac_mode",
          some (obj (copy_entry params (put "hvac_mode" (str m) end) "temperature")),
        )
      ]

  unfoldable pub set_temperature : Fields p.F64 → Result (ServiceCall p)
  set_temperature params = elim (get_then as_f64 "temperature" params) [
    | some temp ↦ ok ("set_temperature", some (obj (field "temperature" (float temp) end)))
    | none ↦ err (bad_request "Invalid or missing params.temperature attribute")
  ]

  unfoldable pub climate_call : EntityCommand p → ClimateCommand → Result (ServiceCall p)
  climate_call msg on = ok ("turn_on", none)
  climate_call msg off = ok ("turn_off", none)
  climate_call msg hvac_mode = get_required_params msg >>= set_hvac_mode
  climate_call msg target_temperature = get_required_params msg >>= set_temperature

  unfoldable pub handle_climate : CommandNames → EntityCommand p → Result (ServiceCall p)
  handle_climate names msg = cmd_from_str names names.climate msg.cmd_id >>= climate_call msg
