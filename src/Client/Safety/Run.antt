-- ===== src/Client/Safety/Run.antt =====
-- The client handles every input without a panic (src/client), except the service call that panics in
-- src/client/service/button.rs.
use integration_home_assista.Prelude.{
  ℕ, ◌≡◌, refl, String, Bool, true, false, Option, none, some, List, [], ◌∷◌, All, inl, inr, arith,
  Option-cases, Bool-cases, List-cases, str_eq, eq_iff, ◌&&◌, keep,
}
use integration_home_assista.Platform.{Platform}
use integration_home_assista.Settings.{HeartbeatSettings}
use integration_home_assista.Api.{EntityType, button, EntityCommand}
use integration_home_assista.Controller.Messages.{
  HaMsg, close, set_remote_id, subscribed_entities, get_states, get_available_entities,
  call_service,
}
use integration_home_assista.Service.Commands.{CommandNames, cmd_from_str}
use integration_home_assista.Service.Devices.{handle_button}
use integration_home_assista.Service.Devices.Button.{handle_button_panics}
use integration_home_assista.Service.Call
use integration_home_assista.Client.State.{
  HaClient, Surroundings, WsFrame, pong_frame, Later, next_id, Incoming, protocol_error, text_in,
  binary_in, ping_in, pong_in, close_in, continuation_in, start_client, normal,
}
use integration_home_assista.Client.Handlers.{
  handle_message, call_service_handler, send_call, close_handler,
}
use integration_home_assista.Client.Socket.{send_message}
use integration_home_assista.Client.Handlers.{
  get_states_handler, get_available_entities_handler, set_remote_id_handler,
  subscribed_entities_handler,
}
use integration_home_assista.Client.Step.{
  Input, frame_input, mailbox_input, timer_input, self_input, finished_input, Environment,
  handle_frame, after_answer, fire, next_close, take_delayed, is_other, step, run, started,
  run_task,
}
use integration_home_assista.Client.Safety.Keeps.{
  Keeps, IsSound, with_id, Keeps-IsSound, close_handler-Keeps, request_states-Keeps, run_task-Keeps,
  set_remote_id_handler-Keeps, subscribed_entities_handler-Keeps,
}
use integration_home_assista.Client.Safety.Messages.{Continues, on_text_message-Continues}

abbrev is_button : EntityType → Bool
is_button button = true
is_button _ = false

-- The push of the button with the id "script".
abbrev pub presses_script : {p : Platform} → Input p → Bool
presses_script (mailbox_input (call_service msg)) =
    is_button msg.entity_type && str_eq msg.entity_id "script"
presses_script _ = false

module _ {p : Platform} (names : CommandNames) (lower : String → String) where
  call_service-eq-none :
      (ws_id : ℕ) (msg : EntityCommand p)
      → Call.call_service names lower true ws_id msg ≡ none
      → (is_button msg.entity_type && str_eq msg.entity_id "script") ≡ true
  unfolding Call.call_service Call.call_result Call.convert handle_button cmd_from_str
  call_service-eq-none ws_id msg e =
      ground (arith, handle_button_panics p names msg, eq_iff msg.entity_id "script")

module _ {p : Platform} (w : Surroundings p) (c : HaClient p) where
  send_message-Keeps : (frame : WsFrame p) → Keeps c (send_message w frame c).1
  unfolding send_message
  send_message-Keeps frame = ground arith

  send_call-Keeps : (called : Call.Called p) → Keeps c (send_call w c called).1
  unfolding send_call
  send_call-Keeps called = ground arith

  call_service-Continues :
      (names : CommandNames) (lower : String → String) (msg : EntityCommand p)
      → (is_button msg.entity_type && str_eq msg.entity_id "script") ≡ false
      → IsSound c
      → Continues (after_answer (call_service_handler w names lower msg c))
  unfolding call_service_handler
  call_service-Continues names lower msg other h =
      elim (Option-cases (Call.call_service names lower true c.ws_id msg)) [
        | inl q ↦ absurd (ground (arith, call_service-eq-none names lower c.ws_id msg q))
        | inr (called, q) ↦ (
          (send_call w c called).1,
          rw (q, call_service_handler) refl,
          Keeps-IsSound c (send_call w c called).1 (send_call-Keeps called) h,
        )
      ]

  handle_message-Continues :
      (names : CommandNames) (lower : String → String) (m : HaMsg p)
      → presses_script (mailbox_input m) ≡ false
      → IsSound c
      → Continues (after_answer (handle_message w names lower m c))
  unfolding handle_message
  handle_message-Continues names lower close other h = (
    close_handler w normal c,
    refl,
    Keeps-IsSound c (close_handler w normal c) (close_handler-Keeps w c normal) h,
  )
  handle_message-Continues names lower (set_remote_id id) other h = (
    _,
    refl,
    Keeps-IsSound c (set_remote_id_handler w id c).1 (set_remote_id_handler-Keeps w c id) h,
  )
  handle_message-Continues names lower (subscribed_entities ids) other h = (
    _,
    refl,
    Keeps-IsSound c (subscribed_entities_handler w ids c)
        (subscribed_entities_handler-Keeps w c ids) h,
  )
  handle_message-Continues names lower (get_states id ids) other h = (
    _,
    refl,
    Keeps-IsSound c (get_states_handler w id ids c).1 (request_states-Keeps w c id (next_id c) ids)
        h,
  )
  handle_message-Continues names lower (get_available_entities id) other h = (
    _,
    refl,
    Keeps-IsSound c (get_available_entities_handler w id c).1
        (request_states-Keeps w c id (next_id c) _) h,
  )
  handle_message-Continues names lower (call_service msg) other h =
      call_service-Continues names lower msg other h

  fire-IsSound : (h : ℕ) (task : Option Later) → IsSound c → IsSound (fire w h task c)
  unfolding fire
  fire-IsSound h none k = k
  fire-IsSound h (some task) k =
      let d = record c { delayed = keep (is_other h) c.delayed } in
      Keeps-IsSound d (run_task w task d) (run_task-Keeps w d task) k

  next_close-IsSound : IsSound c → IsSound (next_close w c)
  next_close-IsSound k = elim (List-cases c.queue) [
    | inl q ↦ rw q k
    | inr (code, rest, q) ↦
        let d = record c { queue = rest } in
        rw q (Keeps-IsSound d (close_handler w code d) (close_handler-Keeps w d code) k)
  ]

module _ {p : Platform} (env : Environment p) (w : Surroundings p) (c : HaClient p) where
  handle_frame-Continues : (frame : Incoming) → IsSound c → Continues (handle_frame env w frame c)
  unfolding handle_frame
  handle_frame-Continues (text_in bytes) k =
      on_text_message-Continues env.decoder env.converters w bytes c k
  handle_frame-Continues protocol_error k = (_, refl, k)
  handle_frame-Continues (binary_in bytes) k = (_, refl, k)
  handle_frame-Continues (ping_in bytes) k =
      let d = record c { last_hb = w.now } in
      (
        _,
        refl,
        Keeps-IsSound d (send_message w (pong_frame bytes) d).1
            (send_message-Keeps w d (pong_frame bytes)) k,
      )
  handle_frame-Continues (pong_in bytes) k = (_, refl, k)
  handle_frame-Continues close_in k = (_, refl, k)
  handle_frame-Continues continuation_in k = (_, refl, k)

  step-Continues : (i : Input p) → presses_script i ≡ false → IsSound c → Continues (step env w i c)
  unfolding step
  step-Continues (frame_input frame) other k = handle_frame-Continues frame k
  step-Continues (mailbox_input m) other k =
      handle_message-Continues w c env.names env.lower m other k
  step-Continues (timer_input h) other k =
      (_, refl, fire-IsSound w c h (take_delayed h c.delayed) k)
  step-Continues self_input other k = (_, refl, next_close-IsSound w c k)
  step-Continues finished_input other k = (_, refl, k)

module _ {p : Platform} (env : Environment p) where
  abbrev pub NeverPressesScript : List (Surroundings p × Input p) → Type 0
  NeverPressesScript = All (λ input. presses_script input.1 ≡ false)

  run-Continues :
      (inputs : List (Surroundings p × Input p)) (c : HaClient p)
      → NeverPressesScript inputs
      → IsSound c
      → Continues (run env inputs c)
  unfolding run
  run-Continues [] c others k = (c, refl, k)
  run-Continues ((w, i) ∷ inputs) c others k = elim (Bool-cases c.stopping) [
    | inl q ↦ (c, ground arith, k)
    | inr q ↦
        let (d, r, h) = step-Continues env w c i others.0 k in
        let (e, s, l) = run-Continues inputs d others.1 h in (e, ground arith, l)
  ]

  started-IsSound :
      (url : p.Url) (token : String) (heartbeat : HeartbeatSettings) (seq now : ℕ) (c : HaClient p)
      → start_client url token heartbeat seq now ≡ some c
      → IsSound (started c)
  unfolding start_client started
  started-IsSound url token heartbeat seq now c e = with_id (λ k. ground arith)

  -- Where the converters of the entities return (in a build for debugging the conversion of a color
  -- temperature can overflow, which panics): a connection handles every sequence of inputs to the end
  -- without a panic, as long as no service call is a command to a button with the id "script".
  pub run-total :
      (url : p.Url) (token : String) (heartbeat : HeartbeatSettings) (seq now : ℕ)
      (inputs : List (Surroundings p × Input p)) (c : HaClient p)
      → start_client url token heartbeat seq now ≡ some c
      → NeverPressesScript inputs
      → (d : HaClient p) × (run env inputs (started c) ≡ some d)
  run-total url token heartbeat seq now inputs c begins others =
      let (d, r, k) =
        run-Continues inputs (started c) others
          (started-IsSound url token heartbeat seq now c begins) in
      (d, r)
