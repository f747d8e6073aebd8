-- ===== src/Controller/Connection/Reconnect.antt =====
-- The retries of a connection attempt that failed, and what stops them.
use integration_home_assista.Prelude.{
  ℕ, List, [], Option, refl, ◌||◌, ◌+◌, ◌≤◌, ◌%◌, ◌^◌, Bool, true, false, String, ◌∷◌, ◌≡◌, none,
  some, arith, ltb, ◌&&◌,
}
use integration_home_assista.Platform.{Platform}
use integration_home_assista.Api.{disconnected, error}
use integration_home_assista.Controller.Messages.{SelfMsg, connect_msg}
use integration_home_assista.Controller.State.{World, Controller, Timer, cancelled, without}
use integration_home_assista.Controller.Core.{increment_reconnect_timeout}
use integration_home_assista.Controller.Frames.{set_device_state-KeepsFields}
use integration_home_assista.Controller.Connection.{
  closed, schedule_reconnect, cancel_reconnect, close_client, client_closed, connection_event,
  disconnect, attempt_failed, retry_or_give_up, is_disconnected,
}

module _ {p : Platform} where
  -- The delay of the next attempt is within the configured maximum.
  abbrev pub IsBounded : Controller p → Type 0
  IsBounded c = c.ha_reconnect_duration ≤ c.hass.reconnect.duration_max

  increment-IsBounded : (c : Controller p) → IsBounded (increment_reconnect_timeout c)
  unfolding increment_reconnect_timeout
  increment-IsBounded c = ground arith

-- A message that asks for a connection.
abbrev is_connect : SelfMsg → Bool
is_connect connect_msg = true
is_connect _ = false

module _ {p : Platform} (w : World p) where
  abbrev attempts_over : Controller p → Bool
  attempts_over c =
      ltb 0 c.hass.reconnect.attempts
      && ltb c.hass.reconnect.attempts ((c.ha_reconnect_attempt + 1) % 2 ^ 32)

  -- A failed attempt of a controller that was disconnected in the meantime schedules no other one.
  -- Otherwise, as long as the permitted number of attempts is not exceeded, exactly one new attempt
  -- is scheduled after the current delay, with a handle that is kept, and the next delay is within
  -- the maximum; else the device state is an error and nothing is scheduled.
  pub attempt_failed_lem :
      (c : Controller p)
      → (is_disconnected c.device_state ≡ true → (attempt_failed w c).timers ≡ c.timers)
        × (is_disconnected c.device_state ≡ false
            → attempts_over c ≡ true
            → ((attempt_failed w c).device_state ≡ error)
              × ((attempt_failed w c).timers ≡ c.timers))
        × (is_disconnected c.device_state ≡ false
            → attempts_over c ≡ false
            → ((attempt_failed w c).timers
                ≡ record {
                  handle = c.next_handle;
                  delay = c.ha_reconnect_duration;
                  message = connect_msg;
                }
                  ∷ c.timers)
              × ((attempt_failed w c).reconnect_handle ≡ some c.next_handle)
              × IsBounded (attempt_failed w c))
  unfolding attempt_failed retry_or_give_up schedule_reconnect increment_reconnect_timeout
  attempt_failed_lem c = ground (
    arith,
    set_device_state-KeepsFields w error (record c {
      ha_client = none;
      ha_reconnect_attempt = (c.ha_reconnect_attempt + 1) % 2 ^ 32;
    }),
  )

  -- A timer that will ask for a connection.
  abbrev pub connects : List Timer → Bool
  connects [] = false
  connects (t ∷ ts) = is_connect t.message || connects ts

  -- Every timer that will ask for a connection is the one with the kept handle.
  abbrev pub OnlyKept : Option ℕ → List Timer → Type 0
  OnlyKept kept [] = Unit {0}
  OnlyKept kept (t ∷ ts) = (is_connect t.message ≡ true → kept ≡ some t.handle) × OnlyKept kept ts

  cancelled-OnlyKept :
      (kept : Option ℕ) (ts : List Timer) → OnlyKept kept ts → connects (cancelled kept ts) ≡ false
  unfolding cancelled without
  cancelled-OnlyKept none [] h = refl
  cancelled-OnlyKept (some handle) [] h = refl
  cancelled-OnlyKept none (t ∷ ts) (k, h) = ground (arith, k, cancelled-OnlyKept none ts h)
  cancelled-OnlyKept (some handle) (t ∷ ts) (k, h) =
      ground (arith, k, cancelled-OnlyKept (some handle) ts h)

  -- After `disconnect` the device state is disconnected, no client is left, and the timer of the
  -- retry whose handle is kept is cancelled; where no other timer asks for a connection, none is left
  -- that does. A `Closed` event of any client then changes nothing, and a connection attempt that
  -- fails late schedules no other one.
  pub disconnect_quiet :
      (client_id : String) (c : Controller p)
      → let d = disconnect w c in
        (d.device_state ≡ disconnected)
        × (d.ha_client ≡ none)
        × (d.reconnect_handle ≡ none)
        × (d.timers ≡ cancelled c.reconnect_handle c.timers)
        × (OnlyKept c.reconnect_handle c.timers → connects d.timers ≡ false)
        × (connection_event w client_id closed d ≡ d)
        × ((attempt_failed w d).timers ≡ d.timers)
  unfolding disconnect cancel_reconnect close_client connection_event client_closed attempt_failed
  disconnect_quiet client_id c =
      let kept = set_device_state-KeepsFields w disconnected c in
      (
        ground (arith, kept),
        ground (arith, kept),
        ground (arith, kept),
        ground (arith, kept),
        λ h. ground (arith, kept, cancelled-OnlyKept c.reconnect_handle c.timers h),
        ground (arith, kept),
        ground (arith, kept),
      )
