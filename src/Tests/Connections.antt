-- ===== src/Tests/Connections.antt =====
-- The connection to Home Assistant on the test platform.
use integration_home_assista.Prelude.{[], ◌∷◌, ◌≡◌, refl, arith}
use integration_home_assista.Api.{connecting, error}
use integration_home_assista.Settings.{get_url, get_token, get_token_value, get_ext_url}
use integration_home_assista.Controller.State.{Controller, ConnectRequest}
use integration_home_assista.Controller.Connection.{
  attempting, connect, disconnect, connection_event, closed,
}
use integration_home_assista.Controller.Connection.Attempt.{connect_lem}
use integration_home_assista.Controller.Connection.Reconnect.{disconnect_quiet}
use integration_home_assista.Controller.Connection.Retries.{
  IsRetrying, failed_retry, failures, failures_lem,
}
use integration_home_assista.Controller.Messages.{connect_msg}
use integration_home_assista.Tests.Fixture.{plain, home, world, idle, codec}

-- A controller with an attempt that is pending.
abbrev trying : Controller plain
trying = record idle { device_state = connecting }

abbrev request : ConnectRequest plain
request = record {
  url = ("ws", "ha.local");
  token = "secret";
  max_frame_size = 5242880;
  heartbeat = home.heartbeat;
  remote_id = "";
}

connect_lem_example : (connect world idle).0 ≡ attempting
unfolding get_url get_token get_token_value get_ext_url
connect_lem_example = ((connect_lem world idle).2 refl).0

-- A controller that waits for the timer of a retry.
abbrev retrying : Controller plain
retrying = record idle {
  device_state = connecting;
  timers = record { handle = 0; delay = 1000; message = connect_msg } ∷ [];
  next_handle = 1;
}

retrying-IsRetrying : IsRetrying world retrying
unfolding get_url get_token get_token_value get_ext_url
retrying-IsRetrying = record {
  handle = 0;
  delay = 1000;
  others = [];
  waits = refl;
  no_future = refl;
  no_client = refl;
  runs = refl;
  has_host = refl;
  has_token = refl;
}

failures_lem_example : (failed_retry world (failures world 2 retrying)).device_state ≡ error
failures_lem_example =
    (failures_lem world codec 2 retrying retrying-IsRetrying (omega arith) (omega arith) refl).1

disconnect_quiet_example :
    connection_event world "c" closed (disconnect world trying) ≡ disconnect world trying
disconnect_quiet_example = (disconnect_quiet world "c" trying).5
