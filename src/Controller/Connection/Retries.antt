-- ===== src/Controller/Connection/Retries.antt =====
-- The retries of the actor after a connection that failed: its timer fires, the attempt starts, and its
-- future ends with an error.
use mathlib.Core.Path.{subst}
use integration_home_assista.Prelude.{
  ℕ, zero, suc, ◌+◌, ◌<◌, ◌%◌, ◌^◌, Bool, true, false, List, [], ◌∷◌, ◌≡◌, none, arith, ltb, ◌&&◌,
  is_some, is_empty, refl, ap, sym, ◌∙◌,
}
use integration_home_assista.Platform.{Platform}
use integration_home_assista.Settings.{get_url, get_token}
use integration_home_assista.Api.{Codec, error, connecting}
use integration_home_assista.Controller.Messages.{connect_msg}
use integration_home_assista.Controller.State.{World, Controller, Timer, without}
use integration_home_assista.Controller.Core.{increment_reconnect_timeout, set_device_state}
use integration_home_assista.Controller.Frames.{set_device_state-KeepsFields}
use integration_home_assista.Controller.Connection.{
  schedule_reconnect, cancel_reconnect, connect, connect_done, begin_attempt, may_connect,
  attempt_failed, retry_or_give_up,
}
use integration_home_assista.Controller.Step.{handle_self, finish_step, Reach}
use integration_home_assista.Controller.Step.Newest.{
  fire_first, fire_newest, end_oldest, fire_newest-Reach, end_oldest-Reach,
}

abbrev retry_timer : ℕ → ℕ → Timer
retry_timer handle delay = record { handle = handle; delay = delay; message = connect_msg }

module _ {p : Platform} (w : World p) where
  -- The newest timer is that of a retry, no attempt is running, and a retry can start: the driver is
  -- in operation, and has a host to connect to and a token.
  pub record IsRetrying (c : Controller p) : Type 0 where
    pub handle : ℕ
    pub delay : ℕ
    pub others : List Timer
    pub waits : c.timers ≡ retry_timer handle delay ∷ others
    pub no_future : c.futures ≡ []
    pub no_client : c.ha_client_id ≡ none
    pub runs : may_connect c.machine ≡ true
    pub has_host : is_some (p.host_str (get_url w.token_file c.hass)) ≡ true
    pub has_token : is_empty (get_token w.token_file c.hass) ≡ false

  -- The timer of the retry fires, and the attempt that it starts fails.
  abbrev pub failed_retry : Controller p → Controller p
  failed_retry c = end_oldest w none (fire_newest w c)

  -- The state after `n` retries that fail one after the other.
  abbrev pub failures : ℕ → Controller p → Controller p
  failures zero c = c
  failures (suc n) c = failures n (failed_retry c)

  -- The state in which a retry whose timer had the handle has failed.
  abbrev attempted : ℕ → Controller p → Controller p
  attempted h c =
      record (set_device_state w connecting
        (cancel_reconnect (record c { timers = without h c.timers }))) {
          futures = [];
          ha_client_id = none;
        }

  connect_begins :
      (c : Controller p)
      → IsRetrying c
      → (ts : List Timer)
      → (connect w (record c { timers = ts })).1
        ≡ begin_attempt w (cancel_reconnect (record c { timers = ts }))
  unfolding connect cancel_reconnect
  connect_begins c h ts = ground (arith, h.no_client, h.runs, h.has_host, h.has_token)

  begun :
      (c : Controller p)
      → c.futures ≡ []
      → end_oldest w none (begin_attempt w c)
        ≡ attempt_failed w
            (record (set_device_state w connecting c) { futures = []; ha_client_id = none })
  unfolding begin_attempt finish_step connect_done
  begun c e =
      let kept = set_device_state-KeepsFields w connecting c in
      let q : (set_device_state w connecting c).futures ≡ [] = ground (arith, kept) in rw q refl

  failed_retry_lem :
      (c : Controller p)
      → (h : IsRetrying c) → failed_retry c ≡ attempt_failed w (attempted h.handle c)
  unfolding handle_self cancel_reconnect
  failed_retry_lem c h =
      let c' = cancel_reconnect (record c { timers = without h.handle c.timers }) in
      ap (λ x. end_oldest w none (fire_first w x c)) h.waits
      ∙ ap (end_oldest w none) (connect_begins c h (without h.handle c.timers))
      ∙ begun c' h.no_future

  abbrev attempts_over : Controller p → Bool
  attempts_over c =
      ltb 0 c.hass.reconnect.attempts
      && ltb c.hass.reconnect.attempts ((c.ha_reconnect_attempt + 1) % 2 ^ 32)

  -- What a retry that starts keeps of the state.
  attempted_lem :
      (h : ℕ) (c : Controller p)
      → let d = attempted h c in
        (d.device_state ≡ connecting)
        × (d.hass ≡ c.hass)
        × (d.machine ≡ c.machine)
        × (d.ha_reconnect_attempt ≡ c.ha_reconnect_attempt)
        × (d.next_handle ≡ c.next_handle)
  unfolding cancel_reconnect
  attempted_lem h c =
      let k =
        set_device_state-KeepsFields w connecting
          (cancel_reconnect (record c { timers = without h c.timers })) in
      ground (arith, k)

  goes_on :
      (c : Controller p)
      → c.device_state ≡ connecting
      → attempts_over c ≡ false
      → let d = attempt_failed w c in
        (d.timers ≡ retry_timer c.next_handle c.ha_reconnect_duration ∷ c.timers)
        × (d.hass ≡ c.hass)
        × (d.machine ≡ c.machine)
        × (d.futures ≡ c.futures)
        × (d.ha_client_id ≡ c.ha_client_id)
        × (d.ha_reconnect_attempt ≡ (c.ha_reconnect_attempt + 1) % 2 ^ 32)
  unfolding attempt_failed retry_or_give_up schedule_reconnect increment_reconnect_timeout
  goes_on c h k = ground arith

  gives_up :
      (c : Controller p)
      → c.device_state ≡ connecting
      → attempts_over c ≡ true
      → let d = attempt_failed w c in
        (d.device_state ≡ error) × (d.next_handle ≡ c.next_handle) × (d.futures ≡ c.futures)
  unfolding attempt_failed retry_or_give_up
  gives_up c h k = ground (
    arith,
    set_device_state-KeepsFields w error (record c {
      ha_client = none;
      ha_reconnect_attempt = (c.ha_reconnect_attempt + 1) % 2 ^ 32;
    }),
  )

  -- A retry that fails, as long as one is left, schedules the next one.
  next_retry :
      (c : Controller p)
      → IsRetrying c
      → attempts_over c ≡ false
      → IsRetrying (failed_retry c)
        × ((failed_retry c).hass ≡ c.hass)
        × ((failed_retry c).ha_reconnect_attempt ≡ (c.ha_reconnect_attempt + 1) % 2 ^ 32)
  next_retry c h k =
      let d = attempted h.handle c in
      let (s, hass, m, n, _) = attempted_lem h.handle c in
      let (ts, hass', m', fs, i, n') = goes_on d s (rw (hass, n) k) in
      subst
        (λ x.
          IsRetrying x
          × (x.hass ≡ c.hass)
          × (x.ha_reconnect_attempt ≡ (c.ha_reconnect_attempt + 1) % 2 ^ 32))
        (sym (failed_retry_lem c h))
        (
          record {
            handle = d.next_handle;
            delay = d.ha_reconnect_duration;
            others = d.timers;
            waits = ts;
            no_future = fs;
            no_client = i;
            runs = rw (m', m) h.runs;
            has_host = rw (hass', hass) h.has_host;
            has_token = rw (hass', hass) h.has_token;
          },
          hass' ∙ hass,
          rw (n', n) refl,
        )

  last_retry :
      (c : Controller p)
      → IsRetrying c
      → attempts_over c ≡ true
      → ((failed_retry c).device_state ≡ error)
        × ((failed_retry c).next_handle ≡ c.next_handle)
        × ((failed_retry c).futures ≡ [])
  last_retry c h k =
      let (s, hass, m, n, i) = attempted_lem h.handle c in
      let (e, i', fs) = gives_up (attempted h.handle c) s (rw (hass, n) k) in
      rw (failed_retry_lem c h) (e, i' ∙ i, fs)

  failures-Reach :
      {codec : Codec p} (n : ℕ) (c : Controller p) → Reach codec c → Reach codec (failures n c)
  failures-Reach zero c r = r
  failures-Reach (suc n) c r =
      failures-Reach n _ (end_oldest-Reach w none _ (fire_newest-Reach w c r))

  -- Where a number of attempts below 2 ^ 32 - 1 is configured and a retry is scheduled: while the `n`
  -- attempts that are left fail one after the other, each after the timer of its retry has fired, the
  -- next retry is scheduled and can start. The failure after that gives up: the device state is
  -- `error`, no attempt is running, and no timer was scheduled. From a reachable state this is a run
  -- of the actor.
  pub failures_lem :
      (codec : Codec p) (n : ℕ) (c : Controller p)
      → IsRetrying c
      → 0 < c.hass.reconnect.attempts
      → c.hass.reconnect.attempts + 1 < 2 ^ 32
      → c.ha_reconnect_attempt + n ≡ c.hass.reconnect.attempts
      → IsRetrying (failures n c)
        × ((failed_retry (failures n c)).device_state ≡ error)
        × ((failed_retry (failures n c)).futures ≡ [])
        × ((failed_retry (failures n c)).next_handle ≡ (failures n c).next_handle)
        × (Reach codec c → Reach codec (failed_retry (failures n c)))
  failures_lem codec zero c h k l e =
      let (d, i, fs) = last_retry c h (ground arith) in (h, d, fs, i, λ r. failures-Reach 1 c r)
  failures_lem codec (suc n) c h k l e =
      let (h', s, a) = next_retry c h (ground arith) in
      let (x, d, fs, i, r) =
        failures_lem codec n (failed_retry c) h' (rw s k) (rw s l) (ground arith) in
      (x, d, fs, i, λ reached. r (failures-Reach 1 c reached))
