-- ===== src/Tests/Server.antt =====
-- The connection of a remote on the test platform.
use integration_home_assista.Prelude.{
  false, String, List, ◌∷◌, ◌++◌, ◌≢◌, true, ◌≡◌, refl, none, some, [], str_eq, if◌then◌else◌,
}
use integration_home_assista.Errors.{ok}
use integration_home_assista.Api.{disconnected, get_driver_version}
use integration_home_assista.Controller.Messages.{response, driver_version}
use integration_home_assista.Server.{
  IncomingMessage, Names, message, error_message, WsConn, ping, text, Effect, write_ping,
  write_pong, text_msg, to_controller, stop_actor, write_close, unsupported,
}
use integration_home_assista.Server.Messages.{
  exchange, end_handling, handle_decoded, on_request_msg, answer, reply_result,
}
use integration_home_assista.Controller.Requests.{request_msg, session_request, metadata_reply}
use integration_home_assista.Prelude.Dict.{lookup}
use integration_home_assista.Server.Answers.{IsAnswer}
use integration_home_assista.Server.Exchange.{exchange_lem}
use integration_home_assista.Settings.{default_heartbeat}
use integration_home_assista.Controller.Step.{session_disconnect_msg, handle}
use integration_home_assista.Server.Life.{
  ConnInput, interval_input, frame_input, text_input, registered_input, live, deliver, receive_text,
}
use integration_home_assista.Controller.Sessions.{r2_session_disconnect}
use integration_home_assista.Controller.Sessions.Known.{knows}
use integration_home_assista.Server.Life.Told.{live-forgets}
use integration_home_assista.Tests.Fixture.{plain, world, codec, idle}

abbrev names : Names plain
names = record {
  decode = λ t. none;
  request_from_str = λ s. if str_eq s "get_driver_version" then some get_driver_version else none;
  event_from_str = λ s. none;
  response_from_str = λ s. none;
}

abbrev version_request : IncomingMessage plain
version_request = record {
  kind = some "req";
  id = some 9;
  msg = some "get_driver_version";
  msg_data = none;
}

abbrev unknown_request : IncomingMessage plain
unknown_request = record version_request { msg = some "dance" }

exchange_lem_example :
    (exchange codec world names (λ m. true) "r" unknown_request (ok tt) idle
      ≡ (some (error_message 9 400 "BAD_REQUEST" "Unknown message: dance"), [], idle))
    × IsAnswer {p = plain} 9 disconnected
        (message (response 9 "name" (driver_version none "0" "0")))
unfolding exchange end_handling handle_decoded on_request_msg answer reply_result request_msg lookup
    session_request metadata_reply
exchange_lem_example = (
  (exchange_lem codec world names (λ m. true) "r" unknown_request (ok tt) idle).0
      "Unknown message: dance" refl,
  (exchange_lem codec world names (λ m. true) "r" version_request (ok tt) idle).1
      (message (response 9 "name" (driver_version none "0" "0"))) refl,
)

-- A connection with a timeout of 40 seconds, silent after a ping at second 30.
abbrev conn : WsConn
conn = record {
  id = "r";
  hb = 0;
  heartbeat = default_heartbeat;
  msg_tracing_in = false;
  msg_tracing_out = false;
}

abbrev silent : List (ConnInput plain)
silent =
    registered_input true
    ∷ interval_input 20000
    ∷ frame_input 30000 (ping "")
    ∷ interval_input 60000
    ∷ frame_input 69000 (text "{")
    ∷ []

abbrev sent : List (Effect plain)
sent =
    write_ping
    ∷ write_pong ""
    ∷ write_ping
    ∷ text_msg "{"
    ∷ write_close unsupported "Invalid JSON message"
    ∷ stop_actor
    ∷ to_controller (session_disconnect_msg "r")
    ∷ []

-- The text that cannot be decoded ends the connection when the actor handles it.
live-forgets_example :
    (knows "r" (r2_session_disconnect "r" idle) ≡ false)
    × ((other : String)
        → other ≢ "r"
        → knows other (r2_session_disconnect "r" idle) ≡ knows other idle)
unfolding live deliver handle receive_text
live-forgets_example =
    (live-forgets codec world names conn [] (silent ++ text_input (λ m. true) ∷ []) sent idle
        refl).0
      (r2_session_disconnect "r" idle) refl
