-- ===== src/Controller/SetupTimer.antt =====
-- The timer of the setup flow, over every step of the controller.
pub mod Steps
pub mod Flow
pub mod Reachable
pub mod Restart
use integration_home_assista.Prelude.{
  ℕ, String, Bool, true, false, List, [], ◌∷◌, ◌++◌, ◌≡◌, ◌≢◌, refl, Option, none, some, arith, All,
  ◌==◌, ==_iff, keep, not,
}
use integration_home_assista.Platform.{Platform}
use integration_home_assista.Errors.{Result}
use integration_home_assista.Controller.Machine.{
  OperationModeState, OperationModeInput, OperationModeOutput, setup_flow, wait_setup_user_data,
  setup_flow_timer, cancel_setup_flow_timer, transition,
}
use integration_home_assista.Controller.Messages.{
  WsMessage, HaMsg, connect_msg, SelfMsg, abort_driver_setup_msg,
}
use integration_home_assista.Controller.State.{
  World, Controller, Timer, without, cancelled, notify_later,
}
use integration_home_assista.Controller.Core.{
  sm_consume, cancel_setup_timer, set_device_state, try_send_r2, send_r2_msg, try_send_ha,
  send_device_state,
}
use integration_home_assista.Controller.Frames.{
  set_device_state_lem, send_r2_msg-OnlySends, OnlySends, try_send_r2-OnlySends,
  try_send_ha-OnlySends, send_device_state-OnlySends,
}
use integration_home_assista.Controller.Connection.{schedule_reconnect, cancel_reconnect}
use integration_home_assista.Api.{DeviceState}

-- The two states of an active setup flow.
abbrev pub is_in_setup : OperationModeState → Bool
is_in_setup setup_flow = true
is_in_setup wait_setup_user_data = true
is_in_setup _ = false

-- The message of the setup timer.
abbrev pub is_setup_timeout : SelfMsg → Bool
is_setup_timeout (abort_driver_setup_msg _ expired) = expired
is_setup_timeout _ = false

abbrev pub IsNamed : Option ℕ → Timer → Type 0
IsNamed h t = is_setup_timeout t.message ≡ true → h ≡ some t.handle

-- Every pending setup timer is the one that the controller can cancel, and it can have one only
-- while a setup flow is active.
pub record IsTimed (machine : OperationModeState) (named : Option ℕ) (timers : List Timer)
    : Type 0 where
  pub is_named : All (IsNamed named) timers
  pub active : named ≢ none → is_in_setup machine ≡ true

-- The same of the state of a controller.
pub record SetupTimed {p : Platform} (c : Controller p) : Type 0 where
  pub timed : IsTimed c.machine c.setup_timeout c.timers

All-without :
    (o : Option ℕ) (h : ℕ) (ts : List Timer) → All (IsNamed o) ts → All (IsNamed o) (without h ts)
unfolding without
All-without o h [] _ = tt
All-without o h (t ∷ ts) (n, k) = ground (arith, All-without o h ts k)

All-cancelled :
    (o k : Option ℕ) (ts : List Timer) → All (IsNamed o) ts → All (IsNamed o) (cancelled k ts)
unfolding cancelled
All-cancelled o none ts h = h
All-cancelled o (some k) ts h = All-without o k ts h

-- Without the named timer no setup timer is left.
without-IsNamed :
    (n : ℕ) (o : Option ℕ) (ts : List Timer)
    → All (IsNamed (some n)) ts
    → All (IsNamed o) (without n ts)
unfolding without
without-IsNamed n o [] _ = tt
without-IsNamed n o (t ∷ ts) (k, h) = ground (arith, without-IsNamed n o ts h)

cancelled-IsNamed :
    (k o : Option ℕ) (ts : List Timer) → All (IsNamed k) ts → All (IsNamed o) (cancelled k ts)
unfolding cancelled
cancelled-IsNamed none o [] h = tt
cancelled-IsNamed none o (t ∷ ts) (k, h) = ground (arith, cancelled-IsNamed none o ts h)
cancelled-IsNamed (some n) o ts h = without-IsNamed n o ts h

transition_quiet :
    (s : OperationModeState) (i : OperationModeInput) {t : OperationModeState}
    → transition s i ≡ some (t, none)
    → is_in_setup s ≡ true
    → is_in_setup t ≡ true
unfolding transition
transition_quiet s i h k = ground arith

transition_timer :
    (s : OperationModeState) (i : OperationModeInput) {t : OperationModeState}
    → transition s i ≡ some (t, some setup_flow_timer)
    → is_in_setup t ≡ true
unfolding transition
transition_timer s i h = ground arith

module _ {p : Platform} (w : World p) where
  sm_consume_case :
      (id : String) (i : OperationModeInput) (c : Controller p)
      (o : Option (OperationModeState × Option OperationModeOutput))
      → transition c.machine i ≡ o
      → IsTimed c.machine c.setup_timeout c.timers
      → SetupTimed (sm_consume w id i c).1
  unfolding sm_consume
  sm_consume_case id i c none e h = rw (e, sm_consume) (record { timed = h })
  sm_consume_case id i c (some (s, none)) e h =
      rw (e, sm_consume)
        (record {
          timed = record {
            is_named = h.is_named;
            active = λ k. transition_quiet c.machine i e (h.active k);
          };
        })
  sm_consume_case id i c (some (s, some setup_flow_timer)) e h =
      rw (e, sm_consume)
        (record {
          timed = record {
            is_named = (
              λ _. refl,
              cancelled-IsNamed c.setup_timeout (some c.next_handle) c.timers h.is_named,
            );
            active = λ _. transition_timer c.machine i e;
          };
        })
  sm_consume_case id i c (some (s, some cancel_setup_flow_timer)) e h =
      rw (e, sm_consume)
        (record {
          timed = record {
            is_named = cancelled-IsNamed c.setup_timeout none c.timers h.is_named;
            active = λ k. absurd (k refl);
          };
        })

  -- Every input of the state machine keeps the timer in step with the state.
  pub sm_consume-SetupTimed :
      (id : String) (i : OperationModeInput) (c : Controller p)
      → SetupTimed c
      → SetupTimed (sm_consume w id i c).1
  sm_consume-SetupTimed id i c h = sm_consume_case id i c (transition c.machine i) refl h.timed

  pub set_device_state-SetupTimed :
      (state : DeviceState) (c : Controller p)
      → SetupTimed c
      → SetupTimed (set_device_state w state c)
  set_device_state-SetupTimed state c h =
      let (s, e) = set_device_state_lem w state c in rw e (record { timed = h.timed })

  OnlySends-SetupTimed : (c d : Controller p) → SetupTimed c → OnlySends w c d → SetupTimed d
  OnlySends-SetupTimed c d h (s, e) = rw e (record { timed = h.timed })

  pub send_r2_msg-SetupTimed :
      (m : WsMessage p) (id : String) (c : Controller p)
      → SetupTimed c
      → SetupTimed (send_r2_msg w m id c)
  send_r2_msg-SetupTimed m id c h = OnlySends-SetupTimed c _ h (send_r2_msg-OnlySends w m id c)

  pub try_send_r2-SetupTimed :
      (r : ℕ) (m : WsMessage p) (c : Controller p) → SetupTimed c → SetupTimed (try_send_r2 w r m c)
  try_send_r2-SetupTimed r m c h = OnlySends-SetupTimed c _ h (try_send_r2-OnlySends w r m c)

  pub try_send_ha-SetupTimed :
      (addr : ℕ) (m : HaMsg p) (c : Controller p)
      → SetupTimed c
      → SetupTimed (try_send_ha w addr m c)
  try_send_ha-SetupTimed addr m c h = OnlySends-SetupTimed c _ h (try_send_ha-OnlySends w addr m c)

  pub send_device_state-SetupTimed :
      (id : String) (c : Controller p) → SetupTimed c → SetupTimed (send_device_state w id c)
  send_device_state-SetupTimed id c h =
      OnlySends-SetupTimed c _ h (send_device_state-OnlySends w id c)

module _ {p : Platform} where
  pub cancel_setup_timer-SetupTimed :
      (c : Controller p) → SetupTimed c → SetupTimed (cancel_setup_timer c)
  unfolding cancel_setup_timer
  cancel_setup_timer-SetupTimed c h = record {
    timed = record {
      is_named = cancelled-IsNamed c.setup_timeout none c.timers h.timed.is_named;
      active = λ k. absurd (k refl);
    };
  }

  -- A timer that fires is no longer pending.
  pub fired-SetupTimed :
      (n : ℕ) (c : Controller p)
      → SetupTimed c
      → SetupTimed (record c { timers = without n c.timers })
  fired-SetupTimed n c h = record {
    timed = record {
      is_named = All-without c.setup_timeout n c.timers h.timed.is_named;
      active = h.timed.active;
    };
  }

  pub notify_later-SetupTimed :
      (m : SelfMsg) (delay : ℕ) (c : Controller p)
      → is_setup_timeout m ≡ false
      → SetupTimed c
      → SetupTimed (notify_later m delay c)
  notify_later-SetupTimed m delay c e h = record {
    timed = record { is_named = (λ k. cc, h.timed.is_named); active = h.timed.active };
  }

  pub schedule_reconnect-SetupTimed :
      (c : Controller p) → SetupTimed c → SetupTimed (schedule_reconnect c)
  unfolding schedule_reconnect
  schedule_reconnect-SetupTimed c h = record {
    timed = (notify_later-SetupTimed connect_msg c.ha_reconnect_duration c refl h).timed;
  }

  pub cancel_reconnect-SetupTimed :
      (c : Controller p) → SetupTimed c → SetupTimed (cancel_reconnect c)
  unfolding cancel_reconnect
  cancel_reconnect-SetupTimed c h = record {
    timed = record {
      is_named = All-cancelled c.setup_timeout c.reconnect_handle c.timers h.timed.is_named;
      active = h.timed.active;
    };
  }

  -- What leaves the three fields alone keeps the invariant.
  abbrev pub SameTimer : Controller p → Controller p → Type 0
  SameTimer c d =
      (d.machine ≡ c.machine) × (d.setup_timeout ≡ c.setup_timeout) × (d.timers ≡ c.timers)

  pub SameTimer-SetupTimed : (c d : Controller p) → SameTimer c d → SetupTimed c → SetupTimed d
  SameTimer-SetupTimed c d (m, s, t) h = record { timed = rw (m, s, t) h.timed }
