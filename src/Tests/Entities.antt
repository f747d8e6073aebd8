-- ===== src/Tests/Entities.antt =====
-- The conversions on the test platform.
use integration_home_assista.Prelude.{
  ℕ, ◌+◌, ◌≤◌, ◌<◌, ◌≡◌, refl, none, some, arith, All, str_eq, if◌then◌else◌, split_once_dot,
}
use integration_home_assista.Errors.{ok}
use integration_home_assista.Json.{Items, nil, cons, obj, field, end, str}
use integration_home_assista.Api.{
  EntityChange, switch, light, cover, sensor, climate, media_player, remote,
}
use integration_home_assista.Service.Climate.{hvac_mode_of}
use integration_home_assista.Service.Light.{color_temp_percent_to_mired}
use integration_home_assista.Entity.Climate.{climate_state}
use integration_home_assista.Entity.Light.{color_temp_mired_to_percent}
use integration_home_assista.Entity.RoundTrip.{
  hvac_mode_round_trip, color_temp_mired_to_percent_lem, color_temp_round_trip,
}
use integration_home_assista.Entity.Interface.{Decoder, EventData}
use integration_home_assista.Entity.Agreement.{KnowsTypes, events_match_states}
use integration_home_assista.Entity.Conversions.{conversions}
use integration_home_assista.Entity.Events.{event_change}
use integration_home_assista.Entity.Simple.{switch_event_to_entity_change}
use integration_home_assista.Entity.States.{convert_states}
use integration_home_assista.Tests.Fixture.{plain}
use integration_home_assista.Tests.Clients.{lib}

hvac_mode_round_trip_example : climate_state "fan_only" ≡ some "FAN"
unfolding hvac_mode_of
hvac_mode_round_trip_example = (hvac_mode_round_trip "FAN" "fan_only").0 refl

color_temp_mired_to_percent_lem_example : 34 < 100
unfolding color_temp_mired_to_percent
color_temp_mired_to_percent_lem_example =
    (color_temp_mired_to_percent_lem 1000 0 1000 34 (omega arith) (omega arith) refl).2
      (omega arith) (omega arith)

-- A light with a range of 1000 mireds shows its maximum as 34 percent.
wide_range : color_temp_mired_to_percent 1000 0 1000 ≡ ok 34
unfolding color_temp_mired_to_percent
wide_range = refl

color_temp_round_trip_example :
    (back : ℕ) × (color_temp_mired_to_percent 153 150 500 ≡ ok back) × (back ≤ 1) × (1 ≤ back + 1)
unfolding color_temp_percent_to_mired
color_temp_round_trip_example = color_temp_round_trip 1 153 refl

abbrev decoder : Decoder plain
decoder = record {
  from_slice = λ bytes. none;
  event_data = λ v. none;
  event_debug = λ e. "";
  entity_type = λ s.
      if str_eq s "light"
      then some light
      else if str_eq s "switch"
      then some switch
      else if str_eq s "cover"
      then some cover
      else if str_eq s "sensor"
      then some sensor
      else if str_eq s "climate"
      then some climate
      else if str_eq s "media_player"
      then some media_player
      else if str_eq s "remote"
      then some remote
      else none;
}

knows : KnowsTypes decoder
knows = record {
  knows_light = refl;
  knows_switch = refl;
  knows_cover = refl;
  knows_sensor = refl;
  knows_climate = refl;
  knows_media_player = refl;
  knows_remote = refl;
}

abbrev pump : EventData plain
pump = record { entity_id = "input_boolean.pump"; state = "on"; attributes = none }

abbrev turned_on : EntityChange plain
turned_on = record {
  device_id = none;
  entity_type = switch;
  entity_id = "input_boolean.pump";
  attributes = field "state" (str "ON") end;
}

abbrev states : Items ℕ
states =
    cons
      (obj (
        field "entity_id" (str "input_boolean.pump")
          (field "state" (str "off") (field "attributes" (obj end) end))))
      nil

events_match_states_example :
    All
      (λ a. a.entity_id ≡ turned_on.entity_id → a.entity_type ≡ turned_on.entity_type)
      (convert_states decoder (conversions lib) ("http", "ha.local") states)
unfolding event_change switch_event_to_entity_change split_once_dot
events_match_states_example =
    events_match_states decoder lib ("http", "ha.local") knows states pump turned_on refl
