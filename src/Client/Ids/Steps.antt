-- ===== src/Client/Ids/Steps.antt =====
-- The ids of the messages that the client writes while it handles one input (src/client).
use integration_home_assista.Prelude.{
  if_keep, ℕ, ◌+◌, ◌≡◌, refl, String, true, List, ◌∷◌, none, some, Option, List-cases, keep, inl,
  inr, arith, Option-cases, map-eq-some,
}
use integration_home_assista.Json.{end, get}
use integration_home_assista.Api.{EntityCommand}
use integration_home_assista.Platform.{Platform}
use integration_home_assista.Errors.{Result}
use integration_home_assista.Controller.Messages.{
  HaMsg, close, set_remote_id, subscribed_entities, get_states, get_available_entities,
  call_service,
}
use integration_home_assista.Service.Commands.{CommandNames}
use integration_home_assista.Service.Call
use integration_home_assista.Service.Call.Answers.{call_service_lem}
use integration_home_assista.Client.State.{
  HaClient, Surroundings, WsFrame, CloseCode, normal, close_frame, pong_frame, ping_frame,
  text_frame, next_id, Later, heartbeat_later, force_stop_later, component_check_later, Incoming,
  protocol_error, text_in, binary_in, ping_in, pong_in, close_in, continuation_in,
}
use integration_home_assista.Client.Subscriptions.{
  info_command, send_uc_info_command, renew_uc_configuration,
}
use integration_home_assista.Client.Handlers.{
  get_states_command, uc_states_command, call_value, close_handler, request_states, reserve_states,
  set_remote_id_handler, subscribed_entities_handler, send_call, call_service_handler,
  handle_message,
}
use integration_home_assista.Client.Step.{
  send_ping, beat, check_again, run_task, Input, frame_input, mailbox_input, timer_input,
  self_input, finished_input, Environment, handle_frame, fire, step, after_answer, next_close,
  is_other, take_delayed,
}
use integration_home_assista.Client.Ids.Fresh.{
  Issues, issued, Issued-Fresh, Issued-then, Issued-more, Fresh-anonymous, Fresh-command,
  Fresh-skip, Fresh-issue, Fresh-raise, Fresh-reserved, Issued-none,
}
use integration_home_assista.Client.Ids.Subscriptions.{
  send_uc_info_command-Issues, renew_uc_configuration-Issues, renew_uc_events-Issues,
  check_uc_ha_component-Issues,
}
use integration_home_assista.Client.Ids.Messages.{on_text_message-Issues}

answered :
    {p : Platform} {a : Result (Unit {0}) × HaClient p} {r : Result (Unit {0})} {d : HaClient p}
    → some a ≡ some (r, d)
    → d ≡ a.1
answered e = cc

module _ {p : Platform} (w : Surroundings p) (c : HaClient p) where
  close_handler-Issues : (code : CloseCode) → Issues 0 c (close_handler w code c)
  unfolding close_handler
  close_handler-Issues code =
      issued λ few f. ground (arith, Fresh-anonymous c.ws_id (close_frame code) c.written refl f)

  -- The id is reserved first and written after that of the search for the component.
  request_states-Issues :
      (remote_id : String) (ids : List String)
      → Issues 2 c (request_states w (next_id c) ids (reserve_states w remote_id c)).1
  unfolding request_states reserve_states get
  request_states-Issues remote_id ids = issued λ few f.
      let m = c.ws_id + 1 in
      let states : WsFrame p = text_frame (get_states_command m) in
      let info : WsFrame p = text_frame (info_command (m + 1)) in
      ground (
        arith,
        Fresh-issue c.ws_id m (text_frame (uc_states_command m ids remote_id)) c.written
            (omega arith) refl f,
        Fresh-raise c.ws_id m c.written (omega arith) f,
        Fresh-reserved c.ws_id m (m + 1) states info c.written (omega arith) (omega arith) refl refl
            f,
        Fresh-issue c.ws_id (m + 1) info c.written (omega arith) refl f,
        Fresh-raise m (m + 1) (states ∷ c.written) (omega arith)
            (Fresh-issue c.ws_id m states c.written (omega arith) refl f),
        Fresh-raise c.ws_id (m + 1) c.written (omega arith) f,
      )

  set_remote_id_handler-Issues :
      (remote_id : String) → Issues 2 c (set_remote_id_handler w remote_id c).1
  unfolding set_remote_id_handler
  set_remote_id_handler-Issues remote_id =
      let c' = record c { remote_id = remote_id } in
      if_keep (λ (d : HaClient p). Issues 2 c d) c.uc_ha_component
        (renew_uc_configuration-Issues w c') (Issued-none 2 c.ws_id c.written)

  subscribed_entities_handler-Issues :
      (ids : List String) → Issues 4 c (subscribed_entities_handler w ids c)
  unfolding subscribed_entities_handler
  subscribed_entities_handler-Issues ids =
      let c' = record c { subscribed_entities = ids } in
      if_keep (λ (d : HaClient p). Issues 4 c d) c.authenticated
        (Issued-then (renew_uc_configuration-Issues w c')
          (renew_uc_events-Issues w (renew_uc_configuration w c')))
        (Issued-none 4 c.ws_id c.written)

  call_service_handler-Issues :
      (names : CommandNames) (lower : String → String) (msg : EntityCommand p)
      (r : Result (Unit {0})) (d : HaClient p)
      → call_service_handler w names lower msg c ≡ some (r, d)
      → Issues 1 c d
  unfolding call_service_handler get
  call_service_handler-Issues names lower msg r d e =
      let (called, q, s) =
        map-eq-some (send_call w c) (Call.call_service names lower true c.ws_id msg) e in
      elim (Option-cases called.written) [
        | inl none_written ↦ issued λ few f. ground arith
        | inr (m, written) ↦ issued λ few f. ground (
          arith,
          (call_service_lem names lower true c.ws_id msg called q).0 m written,
          Fresh-issue c.ws_id m.id (text_frame (call_value m)) c.written,
          Fresh-raise c.ws_id m.id c.written,
        )
      ]

  handle_message-Issues :
      (names : CommandNames) (lower : String → String) (m : HaMsg p) (r : Result (Unit {0}))
      (d : HaClient p)
      → handle_message w names lower m c ≡ some (r, d)
      → Issues 4 c d
  unfolding handle_message
  handle_message-Issues names lower close r d e =
      rw (answered e) (Issued-more 4 (omega arith) (close_handler-Issues normal))
  handle_message-Issues names lower (set_remote_id id) r d e =
      rw (answered e) (Issued-more 4 (omega arith) (set_remote_id_handler-Issues id))
  handle_message-Issues names lower (subscribed_entities ids) r d e =
      rw (answered e) (subscribed_entities_handler-Issues ids)
  handle_message-Issues names lower (get_states id ids) r d e =
      rw (answered e) (Issued-more 4 (omega arith) (request_states-Issues id ids))
  handle_message-Issues names lower (get_available_entities id) r d e =
      rw (answered e) (Issued-more 4 (omega arith) (request_states-Issues id _))
  handle_message-Issues names lower (call_service msg) r d e =
      Issued-more 4 (omega arith) (call_service_handler-Issues names lower msg r d e)

  send_ping-Issues : Issues 1 c (send_ping w c).1
  unfolding send_ping
  send_ping-Issues = issued λ few f. ground (
    arith,
    Fresh-anonymous c.ws_id ping_frame c.written refl f,
    Fresh-command c.ws_id "ping" end c.written few f,
    Fresh-skip c.ws_id c.written few f,
  )

  beat-Issues : Issues 1 c (beat w c)
  unfolding beat
  beat-Issues = issued λ few f. ground (arith, Issued-Fresh send_ping-Issues few f)

  check_again-Issues : (ha_start_time : ℕ) → Issues 1 c (check_again w ha_start_time c)
  unfolding check_again
  check_again-Issues ha_start_time =
      if_keep (λ (d : HaClient p). Issues 1 c d) c.uc_ha_component (Issued-none 1 c.ws_id c.written)
        (Issued-then (send_uc_info_command-Issues w c)
          (check_uc_ha_component-Issues w (send_uc_info_command w c) ha_start_time))

  run_task-Issues : (task : Later) → Issues 1 c (run_task w task c)
  unfolding run_task
  run_task-Issues heartbeat_later = beat-Issues
  run_task-Issues force_stop_later = Issued-none 1 c.ws_id c.written
  run_task-Issues (component_check_later ha_start_time) = check_again-Issues ha_start_time

module _ {p : Platform} (env : Environment p) (w : Surroundings p) where
  handle_frame-Issues :
      (frame : Incoming) (c d : HaClient p) → handle_frame env w frame c ≡ some d → Issues 5 c d
  unfolding handle_frame
  handle_frame-Issues (text_in bytes) c d e =
      on_text_message-Issues env.decoder env.converters w bytes c d e
  handle_frame-Issues (ping_in bytes) c d e =
      issued λ few f. ground (arith, Fresh-anonymous c.ws_id (pong_frame bytes) c.written refl f)
  handle_frame-Issues protocol_error c d e = issued λ few f. ground arith
  handle_frame-Issues (binary_in bytes) c d e = issued λ few f. ground arith
  handle_frame-Issues (pong_in bytes) c d e = issued λ few f. ground arith
  handle_frame-Issues close_in c d e = issued λ few f. ground arith
  handle_frame-Issues continuation_in c d e = issued λ few f. ground arith

  fire-Issues :
      (h : ℕ) (task : Option Later) (c d : HaClient p)
      → some (fire w h task c) ≡ some d
      → Issues 5 c d
  unfolding fire
  fire-Issues h none c d e = issued λ few f. ground arith
  fire-Issues h (some task) c d e = issued λ few f. ground (
    arith,
    Issued-Fresh (run_task-Issues w (record c { delayed = keep (is_other h) c.delayed }) task)
        (omega arith) f,
  )

  next_close-Issues : (c d : HaClient p) → some (next_close w c) ≡ some d → Issues 5 c d
  next_close-Issues c d e = elim (List-cases c.queue) [
    | inl q ↦ issued λ few f. ground arith
    | inr (code, rest, q) ↦ issued λ few f. ground (
      arith,
      Issued-Fresh (close_handler-Issues w (record c { queue = rest }) code) (omega arith) f,
    )
  ]

  after_answer-eq-some :
      (r : Option (Result (Unit {0}) × HaClient p)) (d : HaClient p)
      → after_answer r ≡ some d
      → (a : Result (Unit {0})) × (r ≡ some (a, d))
  after_answer-eq-some none d e = cc
  after_answer-eq-some (some (a, c)) d e = (a, cc)

  -- One input issues at most five ids.
  pub step-Issues : (i : Input p) (c d : HaClient p) → step env w i c ≡ some d → Issues 5 c d
  unfolding step
  step-Issues (frame_input frame) c d e = handle_frame-Issues frame c d e
  step-Issues (mailbox_input m) c d e =
      let (a, q) = after_answer-eq-some (handle_message w env.names env.lower m c) d e in
      Issued-more {j = 4} 5 (omega arith) (handle_message-Issues w c env.names env.lower m a d q)
  step-Issues (timer_input h) c d e = fire-Issues h (take_delayed h c.delayed) c d e
  step-Issues self_input c d e = next_close-Issues c d e
  step-Issues finished_input c d e = issued λ few f. ground arith
