-- ===== src/Tests/Values.antt =====
-- The settings and their input values on the test platform.
use integration_home_assista.Prelude.{String, [], ◌∷◌, ◌≡◌, ◌≢◌, refl, arith, parse_uint}
use integration_home_assista.Prelude.Dict.{Dict, lookup}
use integration_home_assista.Settings.{HomeAssistantSettings, check_cfg_values, panicked}
use integration_home_assista.Settings.Valid.{check_cfg_values-IsUsable}
use integration_home_assista.Errors.{ok}
use integration_home_assista.Controller.Url.Scheme.{SetsScheme}
use integration_home_assista.Controller.Setup.Input.{
  read_values, read_url, read_token, read_connection, read_heartbeat, read_reconnect, parse_value,
}
use integration_home_assista.Controller.Setup.Input.Bounds.{IsLimited, read_values-IsLimited}
use integration_home_assista.Tests.Fixture.{plain, home, no_file}

pub plain-SetsScheme : SetsScheme plain
plain-SetsScheme = (λ u e. (("ws", u.1), refl, refl), λ u e. (("wss", u.1), refl, refl))

-- The user switches the heartbeat off, and asks for a connection timeout that is too short.
abbrev pub entered : Dict String
entered = ("heartbeat_interval", "0") ∷ ("connection_timeout", "2") ∷ []

abbrev pub stored : HomeAssistantSettings plain
stored = record home { heartbeat = record home.heartbeat { interval = 0 } }

pub entered_accepted : read_values no_file entered home ≡ ok stored
unfolding read_values read_url read_token read_connection read_heartbeat read_reconnect parse_value
    lookup parse_uint
entered_accepted = refl

home-IsLimited : IsLimited home
home-IsLimited = ((omega arith, omega arith), (omega arith, omega arith), omega arith, refl)

read_values-IsLimited_example : IsLimited stored
read_values-IsLimited_example =
    (read_values-IsLimited no_file entered home stored home-IsLimited entered_accepted).0

check_cfg_values-IsUsable_example : check_cfg_values home ≢ panicked
check_cfg_values-IsUsable_example = (check_cfg_values-IsUsable plain home plain-SetsScheme refl).0

-- A token of two blanks.
abbrev blank : Dict String
blank = ("token", "  ") ∷ []
