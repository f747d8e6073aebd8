-- ===== src/Tests/Clients.antt =====
-- The client on the test platform.
use integration_home_assista.Prelude.{
  ℕ, true, false, ◌≡◌, ◌+◌, ◌%◌, ◌^◌, refl, none, some, map, decimal, or_else, ◌⊎◌, List, [], ◌∷◌,
  arith,
}
use integration_home_assista.Json.{get, Value, end, field, str, obj, bool, uint}
use integration_home_assista.Settings.{HeartbeatSettings}
use integration_home_assista.Controller.Messages.{get_available_entities, get_states}
use integration_home_assista.Entity.Interface.{Decoder}
use integration_home_assista.Entity.Common.{EntityLib}
use integration_home_assista.Entity.Conversions.{conversions}
use integration_home_assista.Client.State.{
  next_id, text_frame, HaClient, Surroundings, start_client, normal, close_frame, force_stop_later,
}
use integration_home_assista.Client.Step.{
  Input, Environment, mailbox_input, timer_input, run, started, beat, take_delayed, step,
}
use integration_home_assista.Client.Ids.Fresh.{HasDistinctIds, frame_id}
use integration_home_assista.Client.Ids.Run.{run-HasDistinctIds}
use integration_home_assista.Client.Safety.Run.{run-total}
use integration_home_assista.Client.Exchange.States.{get_states_handler_lem}
use integration_home_assista.Client.Exchange.Component.{IsRenewed, component_found_lem}
use integration_home_assista.Client.Exchange.Heartbeat.{beat_lem, close_handler_lem}
use integration_home_assista.Client.Handlers.{get_states_handler, close_handler}
use integration_home_assista.Client.Text.{info_result}
use integration_home_assista.Client.Subscriptions.{unsubscribe_command}
use integration_home_assista.Tests.Fixture.{plain}
use integration_home_assista.Tests.Colors.{floats}
use integration_home_assista.Tests.Services.{names, same}

abbrev pub lib : EntityLib plain
lib = record {
  feature_text = λ f. "feature";
  climate_option_text = λ o. "option";
  media_player_class = λ s. none;
  to_uppercase = λ s. s;
  percent_u64 = λ n. n;
  round_u16 = λ n. n;
  round_f32 = λ n. n;
  default_f64 = 0;
  f32_of_f64 = λ n. n;
  f32_of_uint = λ n. n;
  f32_text = λ n. "";
  above_hundred = λ n. false;
  saturation_u16 = λ n. n;
  hue_u16 = λ n. n;
  floats = floats;
}

-- Every frame is the message that the component was found, with the id 1.
abbrev found_message : Value ℕ
found_message =
    obj (field "id" (uint 1) (field "type" (str "result") (field "success" (bool true) end)))

abbrev decoder : Decoder plain
decoder = record {
  from_slice = λ bytes. some found_message;
  event_data = λ v. none;
  event_debug = λ e. "";
  entity_type = λ s. none;
}

abbrev env : Environment plain
env = record { decoder = decoder; converters = conversions lib; names = names; lower = same }

abbrev calm : Surroundings plain
calm = record {
  now = 50000;
  takes_frame = λ f. true;
  takes_notice = λ n. true;
  context_connected = true;
  app_version = "0";
}

abbrev beating : HeartbeatSettings
beating = record { ping_frames = false; interval = 20; timeout = 40 }

abbrev young : HaClient plain
young = record {
  id = "ha.local:8123-1";
  server = ("http", "ha.local");
  ws_id = 0;
  access_token = "secret";
  uc_ha_component = false;
  uc_ha_component_info_id = none;
  uc_ha_component_check_interval = 5000;
  uc_ha_component_check_duration = none;
  uc_ha_comp_check_handle = none;
  subscribed_events = false;
  subscribe_standard_events_id = none;
  subscribe_uc_events_id = none;
  subscribe_configure_id = none;
  entity_states_id = none;
  last_hb = 20000;
  heartbeat = beating;
  subscribed_entities = [];
  authenticated = false;
  remote_id = "";
  sink_closed = false;
  stopping = false;
  next_handle = 0;
  delayed = [];
  queue = [];
  written = [];
  notices = [];
}

abbrev with_remote : List (Surroundings plain × Input plain)
with_remote =
    (calm, mailbox_input (get_available_entities "r"))
    ∷ (calm, mailbox_input (get_states "r" ("light.a" ∷ [])))
    ∷ []

begins : start_client {p = plain} ("ws", "ha.local") "secret" beating 1 20000 ≡ some young
unfolding start_client decimal
begins = refl

run-total_example : (d : HaClient plain) × (run env with_remote (started young) ≡ some d)
run-total_example =
    run-total env ("ws", "ha.local") "secret" beating 1 20000 with_remote young begins
      (refl, (refl, tt))

abbrev later : HaClient plain
unfolding run started
later = or_else (run env with_remote (started young)) young

run-HasDistinctIds_example : HasDistinctIds later.written
unfolding run started
run-HasDistinctIds_example =
    run-HasDistinctIds env ("ws", "ha.local") "secret" beating 1 20000 with_remote young later
      begins (omega arith) refl

-- The messages of both requests: the ids do not increase.
later_ids : map frame_id later.written ≡ some 3 ∷ some 4 ∷ some 1 ∷ some 2 ∷ []
unfolding run started get
later_ids = refl

get_states_handler_lem_example :
    (get_states_handler calm "r" [] young).1.entity_states_id ≡ some ((young.ws_id + 1) % 2 ^ 32)
get_states_handler_lem_example = (get_states_handler_lem calm young "r" []).0

abbrev known : HaClient plain
known = record young {
  authenticated = true;
  subscribed_events = true;
  subscribe_standard_events_id = some 1;
  ws_id = 1;
}

abbrev switched : HaClient plain
unfolding info_result
switched = or_else (info_result calm true known) known

component_found_lem_example :
    (switched.uc_ha_component ≡ true)
    × (switched.subscribed_events ≡ false)
    × (known.subscribed_events ≡ true → switched.subscribe_standard_events_id ≡ none)
    × ((c' : HaClient plain) × IsRenewed calm c' switched
        × (c'.subscribe_configure_id ≡ known.subscribe_configure_id)
        × (c'.subscribe_uc_events_id ≡ known.subscribe_uc_events_id)
        × (known.subscribed_events ≡ false → c'.written ≡ known.written)
        × ((subscription : ℕ)
            → known.subscribed_events ≡ true
            → known.subscribe_standard_events_id ≡ some subscription
            → c'.written
              ≡ text_frame (unsubscribe_command (next_id known) subscription) ∷ known.written))
unfolding info_result
component_found_lem_example = component_found_lem calm (λ f. refl) known switched refl

beat_lem_example : beat (record calm { now = 70000 }) young ≡ record young { stopping = true }
beat_lem_example =
    (beat_lem (record calm { now = 70000 }) young env (λ e. omega arith)).0
      (λ e. omega arith, omega arith)

close_handler_lem_example :
    ((close_handler calm normal young).stopping ≡ true)
    ⊎ (((close_handler calm normal young).written ≡ close_frame normal ∷ young.written)
        × ((close_handler calm normal young).delayed
            ≡ record { handle = young.next_handle; delay = 100; task = force_stop_later }
              ∷ young.delayed)
        × ((after : Surroundings plain) (d e : HaClient plain)
            → take_delayed young.next_handle d.delayed ≡ some force_stop_later
            → step env after (timer_input young.next_handle) d ≡ some e
            → (e.stopping ≡ true) × (e.sink_closed ≡ true)))
close_handler_lem_example = close_handler_lem calm young env normal
