-- ===== src/Client/Step.antt =====
-- What reaches the client: frames (src/client/streamhandler.rs), messages of the controller and to
-- itself, and timers; with its life from `started` to `stopped` (src/client/actor.rs).
use integration_home_assista.Prelude.{
  ℕ, ◌-◌, ◌*◌, String, Bool, true, false, not, Option, none, some, List, [], ◌∷◌, ltb, keep, ◌==◌,
  ◌&&◌, if◌then◌else◌,
}
use integration_home_assista.Json.{end}
use integration_home_assista.Platform.{Platform}
use integration_home_assista.Errors.{Result, ok, err}
use integration_home_assista.Controller.Connection.{closed}
use integration_home_assista.Controller.Messages.{HaMsg}
use integration_home_assista.Service.Commands.{CommandNames}
use integration_home_assista.Entity.Interface.{Decoder, Converters}
use integration_home_assista.Client.State.{
  HaClient, Surroundings, Delayed, Later, heartbeat_later, force_stop_later, component_check_later,
  Incoming, protocol_error, text_in, binary_in, ping_in, pong_in, close_in, continuation_in,
  text_frame, ping_frame, pong_frame, connection_event, unsupported, next_id, run_later,
  notify_close, tell,
}
use integration_home_assista.Client.Socket.{send_message, command}
use integration_home_assista.Client.Subscriptions.{send_uc_info_command, check_uc_ha_component}
use integration_home_assista.Client.Text.{on_text_message}
use integration_home_assista.Client.Handlers.{close_handler, handle_message}

module _ {p : Platform} where
  -- `heartbeat`, which waits for the next beat.
  unfoldable pub await_heartbeat : HaClient p → HaClient p
  await_heartbeat c =
      if c.heartbeat.interval == 0
      then c
      else run_later heartbeat_later (c.heartbeat.interval * 1000) c

  -- No sign of life for longer than the timeout, unless that is zero.
  abbrev pub is_timed_out : ℕ → HaClient p → Bool
  is_timed_out now c =
      not (c.heartbeat.timeout == 0) && ltb (c.heartbeat.timeout * 1000) (now - c.last_hb)

  unfoldable pub send_ping : Surroundings p → HaClient p → Result (Unit {0}) × HaClient p
  unfolding send_message
  send_ping w c =
      if c.heartbeat.ping_frames
      then send_message w ping_frame c
      else send_message w (text_frame (command (next_id c) "ping" end))
          (record c { ws_id = next_id c })

  -- The closure of `heartbeat`.
  unfoldable pub beat : Surroundings p → HaClient p → HaClient p
  unfolding send_ping await_heartbeat
  beat w c =
      if is_timed_out w.now c
      then record c { stopping = true }
      else let (r, c') = send_ping w c in elim r [ ok _ ↦ await_heartbeat c' | err _ ↦ c' ]

  -- The closure of `check_uc_ha_component`.
  unfoldable pub check_again : Surroundings p → ℕ → HaClient p → HaClient p
  unfolding send_uc_info_command check_uc_ha_component
  check_again w ha_start_time c =
      if c.uc_ha_component
      then c
      else check_uc_ha_component w ha_start_time (send_uc_info_command w c)

  abbrev pub close_sink : HaClient p → HaClient p
  close_sink c = record c { sink_closed = true; stopping = true }

  unfoldable pub run_task : Surroundings p → Later → HaClient p → HaClient p
  unfolding beat check_again
  run_task w heartbeat_later c = beat w c
  run_task w force_stop_later c = close_sink c
  run_task w (component_check_later ha_start_time) c = check_again w ha_start_time c

abbrev pub take_delayed : ℕ → List Delayed → Option Later
take_delayed h [] = none
take_delayed h (d ∷ ds) =
    let rest = take_delayed h ds in if d.handle == h then some d.task else rest

abbrev pub is_other : ℕ → Delayed → Bool
is_other h d = not (d.handle == h)

-- What the context hands to the actor: a frame, a message of the controller, the timer of a handle,
-- the next message to itself, or the end of the stream.
pub data Input (p : Platform) : Type 0 where
  frame_input : Incoming → Input p
  mailbox_input : HaMsg p → Input p
  timer_input : ℕ → Input p
  self_input finished_input : Input p

-- The environment of the program: decoding, names of commands, and lower case.
pub record Environment (p : Platform) : Type 0 where
  pub decoder : Decoder p
  pub converters : Converters p
  pub names : CommandNames
  pub lower : String → String

module _ {p : Platform} where
  abbrev pub after_answer : Option (Result (Unit {0}) × HaClient p) → Option (HaClient p)
  after_answer none = none
  after_answer (some (_, c)) = some c

module _ {p : Platform} (w : Surroundings p) where
  unfoldable pub fire : ℕ → Option Later → HaClient p → HaClient p
  unfolding run_task
  fire h none c = c
  fire h (some task) c = run_task w task (record c { delayed = keep (is_other h) c.delayed })

  abbrev pub next_close : HaClient p → HaClient p
  next_close c = elim c.queue [
    | [] ↦ c
    | code ∷ rest ↦ close_handler w code (record c { queue = rest })
  ]

module _ {p : Platform} (env : Environment p) (w : Surroundings p) where
  -- `StreamHandler::handle`; `none` is a panic.
  unfoldable pub handle_frame : Incoming → HaClient p → Option (HaClient p)
  unfolding on_text_message send_message
  handle_frame protocol_error c = some (close_sink c)
  handle_frame (text_in bytes) c = on_text_message env.decoder env.converters w bytes c
  handle_frame (binary_in bytes) c =
      some (record (notify_close unsupported c) { authenticated = false })
  handle_frame (ping_in bytes) c =
      some (send_message w (pong_frame bytes) (record c { last_hb = w.now })).1
  handle_frame (pong_in bytes) c = some (record c { last_hb = w.now })
  handle_frame close_in c = some (close_sink c)
  handle_frame continuation_in c = some (notify_close unsupported c)

  -- One input; `none` is a panic.
  unfoldable pub step : Input p → HaClient p → Option (HaClient p)
  unfolding handle_frame handle_message fire close_handler
  step (frame_input f) c = handle_frame f c
  step (mailbox_input m) c = after_answer (handle_message w env.names env.lower m c)
  step (timer_input h) c = some (fire w h (take_delayed h c.delayed) c)
  step self_input c = some (next_close w c)
  step finished_input c = some (record c { stopping = true })

module _ {p : Platform} (env : Environment p) where
  -- The inputs in their order. A stopping actor handles no further input; `none` is a panic.
  unfoldable pub run : List (Surroundings p × Input p) → HaClient p → Option (HaClient p)
  unfolding step
  run [] c = some c
  run ((w, i) ∷ inputs) c = elim c.stopping [
    | true ↦ some c
    | false ↦ elim (step env w i c) [ none ↦ none | some d ↦ run inputs d ]
  ]

module _ {p : Platform} where
  -- `Actor::started` and `Actor::stopped`.
  unfoldable pub started : HaClient p → HaClient p
  unfolding await_heartbeat
  started c = await_heartbeat c

  unfoldable pub stopped : HaClient p → HaClient p
  stopped c = tell (connection_event c.id closed) c
