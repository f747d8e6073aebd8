-- ===== src/Client/Exchange/Heartbeat.antt =====
-- The heartbeat and the end of a connection (src/client/mod.rs and close_handler.rs).
use integration_home_assista.Prelude.{
  ℕ, ◌*◌, ◌-◌, ◌<◌, ◌≤◌, ◌≡◌, ◌≢◌, true, false, ◌∷◌, some, ◌⊎◌, inl, inr, arith, if◌then◌else◌,
  Bool-cases,
}
use integration_home_assista.Json.{end}
use integration_home_assista.Platform.{Platform}
use integration_home_assista.Client.State.{
  HaClient, Surroundings, WsFrame, CloseCode, Delayed, text_frame, ping_frame, close_frame, next_id,
  heartbeat_later, force_stop_later,
}
use integration_home_assista.Client.Socket.{command}
use integration_home_assista.Client.Handlers.{close_handler}
use integration_home_assista.Client.Step.{beat, take_delayed, step, Environment, timer_input}

module _ {p : Platform} (w : Surroundings p) (c : HaClient p) where
  -- The ping of the settings: a control frame, or a message with a new id.
  abbrev ping : WsFrame p
  ping = if c.heartbeat.ping_frames then ping_frame else text_frame (command (next_id c) "ping" end)

  abbrev next_beat : Delayed
  next_beat = record {
    handle = c.next_handle;
    delay = c.heartbeat.interval * 1000;
    task = heartbeat_later;
  }

  -- The last sign of life is more than the timeout in seconds ago, and the timeout is enabled.
  abbrev IsSilent : ℕ → HaClient p → Type 0
  IsSilent now d = (d.heartbeat.timeout ≢ 0) × (d.heartbeat.timeout * 1000 < now - d.last_hb)

  -- A beat of an enabled heartbeat. If the last sign of life is more than the timeout in seconds ago
  -- and the timeout is not zero, it only stops the actor. If the timeout is zero or the last sign of
  -- life is not that long ago, it writes one ping and schedules exactly one further beat after the
  -- interval, or it stops the actor and schedules none, if the sink refuses the ping. The beat that is
  -- scheduled stops the actor, if it finds an enabled heartbeat and such a silence when its timer
  -- fires.
  pub beat_lem :
      (env : Environment p)
      → c.heartbeat.interval ≢ 0
      → (IsSilent w.now c → beat w c ≡ record c { stopping = true })
        × ((c.heartbeat.timeout ≡ 0) ⊎ (w.now - c.last_hb ≤ c.heartbeat.timeout * 1000)
            → w.takes_frame ping ≡ true
            → ((beat w c).written ≡ ping ∷ c.written)
              × ((beat w c).delayed ≡ next_beat ∷ c.delayed)
              × ((beat w c).stopping ≡ c.stopping))
        × ((c.heartbeat.timeout ≡ 0) ⊎ (w.now - c.last_hb ≤ c.heartbeat.timeout * 1000)
            → w.takes_frame ping ≡ false
            → ((beat w c).written ≡ c.written)
              × ((beat w c).delayed ≡ c.delayed)
              × ((beat w c).stopping ≡ true))
        × ((later : Surroundings p) (d e : HaClient p)
            → take_delayed next_beat.handle d.delayed ≡ some next_beat.task
            → d.heartbeat.interval ≢ 0
            → IsSilent later.now d
            → step env later (timer_input next_beat.handle) d ≡ some e
            → e.stopping ≡ true)
  unfolding beat step
  beat_lem env enabled = (
    λ h. ground arith,
    λ h t. ground arith,
    λ h t. ground arith,
    λ later d e q on h s. ground arith,
  )

  -- A request to close ends the connection: the Close frame is written and a forced stop is due after
  -- 100 milliseconds, which stops the actor whatever has happened by then; or the actor stops at once.
  pub close_handler_lem :
      (env : Environment p) (code : CloseCode)
      → ((close_handler w code c).stopping ≡ true)
        ⊎ (((close_handler w code c).written ≡ close_frame code ∷ c.written)
            × ((close_handler w code c).delayed
                ≡ record { handle = c.next_handle; delay = 100; task = force_stop_later }
                  ∷ c.delayed)
            × ((later : Surroundings p) (d e : HaClient p)
                → take_delayed c.next_handle d.delayed ≡ some force_stop_later
                → step env later (timer_input c.next_handle) d ≡ some e
                → (e.stopping ≡ true) × (e.sink_closed ≡ true)))
  unfolding close_handler step
  close_handler_lem env code = elim (Bool-cases (w.takes_frame (close_frame code))) [
    | inr q ↦ inl (ground arith)
    | inl q ↦ inr (ground arith, ground arith, λ later d e r s. ground arith)
  ]
