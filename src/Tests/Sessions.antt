-- ===== src/Tests/Sessions.antt =====
-- Two remotes that come and one that goes, on the test platform.
use integration_home_assista.Prelude.{◌≡◌, refl, true}
use integration_home_assista.Controller.State.{Controller, new}
use integration_home_assista.Controller.Sessions.{new_r2_session, r2_session_disconnect}
use integration_home_assista.Controller.Sessions.Known.{knows}
use integration_home_assista.Controller.Sessions.History.{knows-IsOpen}
use integration_home_assista.Controller.Step.{
  Reach, start, next, external, handle, new_session_msg, session_disconnect_msg,
}
use integration_home_assista.Tests.Fixture.{plain, home, no_file, world, codec}

abbrev both : Controller plain
both = new_r2_session world "s" 8 (new_r2_session world "r" 7 (new no_file home tt))

abbrev one_left : Controller plain
one_left = r2_session_disconnect "r" both

abbrev one_left_reached : Reach codec one_left
unfolding handle
one_left_reached =
    next
      (next (next (start no_file home tt) (external world (new_session_msg "r" 7) refl))
        (external world (new_session_msg "s" 8) refl))
      (external world (session_disconnect_msg "r") refl)

knows-IsOpen_example : knows "s" one_left ≡ true
unfolding one_left_reached
knows-IsOpen_example = knows-IsOpen one_left_reached "s"
