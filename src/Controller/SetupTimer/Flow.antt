-- ===== src/Controller/SetupTimer/Flow.antt =====
-- The handlers of the entities, of the requests and of the setup flow keep the setup timer in step
-- with the state.
use integration_home_assista.Prelude.{
  String, Bool, true, false, List, [], ◌∷◌, refl, Option, none, some, if_keep, Option-cases, inl,
  inr, arith, or_else, parse_bool, not, is_empty, ◌&&◌,
}
use integration_home_assista.Prelude.Dict.{Dict, lookup, modify}
use integration_home_assista.Platform.{Platform}
use integration_home_assista.Settings.{HomeAssistantSettings, get_url, get_token}
use integration_home_assista.Errors.{Result, ok, err, is_ok, Result-cases}
use integration_home_assista.Api.{
  Codec, EntityChange, R2Request, SetupDriver, IntegrationSetup, IntegrationSetupError, timeout,
}
use integration_home_assista.Controller.Machine.{
  OperationModeInput, r2_request, setup_driver_request, setup_user_data, request_user_input,
  configuration_available, abort_setup,
}
use integration_home_assista.Controller.Messages.{
  WsMessage, connect_msg, request_options_msg, request_expert_options_msg, finish_setup_flow_msg,
}
use integration_home_assista.Controller.State.{World, Controller, R2Session, notify}
use integration_home_assista.Controller.Core.{send_r2_msg, sm_consume}
use integration_home_assista.Controller.Entities.{
  entity_event, send_to_each, update_subscriptions, with_subscriptions,
}
use integration_home_assista.Controller.Sessions.{set_standby}
use integration_home_assista.Controller.Requests.{
  R2RequestMsg, metadata_reply, setup_task, note_request, stored_entities, run_request,
  command_client, running_request, session_request, request_msg,
}
use integration_home_assista.Controller.Setup.{
  set_reconfiguring, begin_setup, setup_driver_msg, apply_settings, read_setup,
  set_driver_user_data_msg, send_page, request_options, request_expert_options, finish_input,
  finish_accepted, finish_setup_flow, is_require_setup, is_true, resume_operation,
  abort_driver_setup,
}
use integration_home_assista.Controller.Setup.Input.{parse_value}
use integration_home_assista.Controller.SetupTimer.{
  SetupTimed, SameTimer, SameTimer-SetupTimed, send_r2_msg-SetupTimed, sm_consume-SetupTimed,
  notify_later-SetupTimed, cancel_setup_timer-SetupTimed,
}
use integration_home_assista.Controller.SetupTimer.Steps.{ThenTimed, disconnect-SetupTimed}

module _ {p : Platform} (w : World p) where
  send_to_each-SetupTimed :
      (m : WsMessage p) (d : Dict R2Session) (c : Controller p)
      → SetupTimed c
      → SetupTimed (send_to_each w m d c)
  unfolding send_to_each
  send_to_each-SetupTimed m [] c h = h
  send_to_each-SetupTimed m ((id, s) ∷ d) c h =
      send_to_each-SetupTimed m d (send_r2_msg w m id c) (send_r2_msg-SetupTimed w m id c h)

  pub entity_event-SetupTimed :
      (e : EntityChange p) (c : Controller p) → SetupTimed c → SetupTimed (entity_event w e c)
  unfolding entity_event
  entity_event-SetupTimed e c h = send_to_each-SetupTimed _ c.sessions c h

  with_subscriptions-SameTimer :
      (f : List String → List String → List String) (id : String) (r : Result (List String))
      (c : Controller p)
      → SameTimer c (with_subscriptions w f id r c).1
  unfolding with_subscriptions update_subscriptions
  with_subscriptions-SameTimer f id r c = ground arith

  pub with_subscriptions-SetupTimed :
      (f : List String → List String → List String) (id : String) (r : Result (List String))
      (c : Controller p)
      → SetupTimed c
      → ThenTimed (with_subscriptions w f id r c)
  with_subscriptions-SetupTimed f id r c h =
      SameTimer-SetupTimed c _ (with_subscriptions-SameTimer f id r c) h

module _ {p : Platform} (codec : Codec p) (w : World p) where
  note_request-SameTimer :
      (msg : R2RequestMsg p) (s : R2Session) (r : R2Request) (c : Controller p)
      → SameTimer c (note_request codec w msg s r c).2
  unfolding note_request stored_entities
  note_request-SameTimer msg s r c = ground arith

  run_request-SameTimer :
      (msg : R2RequestMsg p) (r : R2Request) (ids : List String) (c : Controller p)
      → SameTimer c (run_request codec w msg r ids c).1
  unfolding run_request command_client
  run_request-SameTimer msg r ids c = ground arith

  after_consume-SameTimer :
      (msg : R2RequestMsg p) (s : R2Session) (c : Controller p)
      → SameTimer (sm_consume w msg.ws_id r2_request c).1 (running_request codec w msg s c).1
  unfolding running_request
  after_consume-SameTimer msg s c = ground (
    arith,
    note_request-SameTimer msg s msg.request (sm_consume w msg.ws_id r2_request c).1,
    run_request-SameTimer msg msg.request
        (note_request codec w msg s msg.request (sm_consume w msg.ws_id r2_request c).1).1
        (note_request codec w msg s msg.request (sm_consume w msg.ws_id r2_request c).1).2,
  )

  running_request-SetupTimed :
      (msg : R2RequestMsg p) (s : R2Session) (c : Controller p)
      → SetupTimed c
      → ThenTimed (running_request codec w msg s c)
  running_request-SetupTimed msg s c h =
      SameTimer-SetupTimed _ _ (after_consume-SameTimer msg s c)
        (sm_consume-SetupTimed w msg.ws_id r2_request c h)

  session_request-SetupTimed :
      (msg : R2RequestMsg p) (s : R2Session) (c : Controller p)
      → SetupTimed c
      → ThenTimed (session_request codec w msg s c)
  unfolding session_request
  session_request-SetupTimed msg s c h =
      elim (Option-cases (metadata_reply codec w msg c msg.request)) [
        | inr (m, q) ↦ rw (q, session_request) h
        | inl q ↦ elim (Option-cases (setup_task codec w msg msg.request)) [
          | inr (t, r) ↦ rw (q, r, session_request) h
          | inl r ↦ rw (q, r, session_request) (running_request-SetupTimed msg s c h)
        ]
      ]

  pub request_msg-SetupTimed :
      (msg : R2RequestMsg p) (c : Controller p)
      → SetupTimed c
      → ThenTimed (request_msg codec w msg c)
  unfolding request_msg
  request_msg-SetupTimed msg c h = elim (Option-cases (lookup msg.ws_id c.sessions)) [
    | inl q ↦ rw (q, request_msg) h
    | inr (s, q) ↦
        rw (q, request_msg)
          (session_request-SetupTimed msg s
            (record c { sessions = modify msg.ws_id (set_standby false) c.sessions })
            (record { timed = h.timed }))
  ]

module _ {p : Platform} (w : World p) where
  begin_setup-SetupTimed :
      (id : String) (d : SetupDriver) (c : Controller p)
      → SetupTimed c
      → SetupTimed (begin_setup w id d c)
  unfolding begin_setup
  begin_setup-SetupTimed id d c h =
      let k =
        disconnect-SetupTimed w
          (record c { sessions = modify id (set_reconfiguring d.reconfigure) c.sessions })
          (record { timed = h.timed }) in
      if_keep SetupTimed (or_else (parse_value parse_bool d.setup_data "expert") false)
        (notify_later-SetupTimed (request_expert_options_msg id) 100 _ refl k)
        (notify_later-SetupTimed (request_options_msg id) 100 _ refl k)

  pub setup_driver_msg-SetupTimed :
      (id : String) (d : SetupDriver) (c : Controller p)
      → SetupTimed c
      → ThenTimed (setup_driver_msg w id d c)
  unfolding setup_driver_msg
  setup_driver_msg-SetupTimed id d c h =
      let k = sm_consume-SetupTimed w id setup_driver_request c h in
      elim (Result-cases (sm_consume w id setup_driver_request c).0) [
        | inl (_, q) ↦ rw (q, setup_driver_msg) (begin_setup-SetupTimed id d _ k)
        | inr (_, q) ↦ rw (q, setup_driver_msg) k
      ]

  apply_settings-SetupTimed :
      (id : String) (cfg : HomeAssistantSettings p) (c : Controller p)
      → SetupTimed c
      → ThenTimed (apply_settings w id cfg c)
  unfolding apply_settings
  apply_settings-SetupTimed id cfg c h = elim (Option-cases (w.save_error cfg)) [
    | inl q ↦
        rw (q, apply_settings)
          (notify_later-SetupTimed (finish_setup_flow_msg id none) 100 (record c { hass = cfg })
            refl (record { timed = h.timed }))
    | inr (_, q) ↦ rw (q, apply_settings) h
  ]

  pub set_driver_user_data_msg-SetupTimed :
      (id : String) (d : IntegrationSetup) (c : Controller p)
      → SetupTimed c
      → ThenTimed (set_driver_user_data_msg w id d c)
  unfolding set_driver_user_data_msg
  set_driver_user_data_msg-SetupTimed id d c h =
      let k = sm_consume-SetupTimed w id setup_user_data c h in
      let c' = (sm_consume w id setup_user_data c).1 in
      elim (Result-cases (sm_consume w id setup_user_data c).0) [
        | inr (_, q) ↦ rw (q, set_driver_user_data_msg) k
        | inl (_, q) ↦ elim (Result-cases (read_setup w d c'.hass)) [
          | inr (_, r) ↦ rw (q, r, set_driver_user_data_msg) k
          | inl (cfg, r) ↦
              rw (q, r, set_driver_user_data_msg) (apply_settings-SetupTimed id cfg c' k)
        ]
      ]

  send_page-SetupTimed :
      (id : String) (page : Controller p → WsMessage p) (r : Result (Unit {0}) × Controller p)
      → ThenTimed r
      → SetupTimed (send_page w id page r)
  unfolding send_page
  send_page-SetupTimed id page (ok _, c) h = send_r2_msg-SetupTimed w (page c) id c h
  send_page-SetupTimed id page (err _, c) h = h

  pub request_options-SetupTimed :
      (id : String) (c : Controller p) → SetupTimed c → SetupTimed (request_options w id c)
  unfolding request_options
  request_options-SetupTimed id c h =
      send_page-SetupTimed id _ _ (sm_consume-SetupTimed w id request_user_input c h)

  pub request_expert_options-SetupTimed :
      (id : String) (c : Controller p) → SetupTimed c → SetupTimed (request_expert_options w id c)
  unfolding request_expert_options
  request_expert_options-SetupTimed id c h =
      send_page-SetupTimed id _ _ (sm_consume-SetupTimed w id request_user_input c h)

  finish_accepted-SameTimer :
      (id : String) (error : Option IntegrationSetupError) (c : Controller p)
      → SameTimer c (finish_accepted w id error c)
  unfolding finish_accepted
  finish_accepted-SameTimer id error c = ground arith

  pub finish_setup_flow-SetupTimed :
      (id : String) (error : Option IntegrationSetupError) (c : Controller p)
      → SetupTimed c
      → SetupTimed (finish_setup_flow w id error c)
  unfolding finish_setup_flow
  finish_setup_flow-SetupTimed id error c h =
      let k = sm_consume-SetupTimed w id (finish_input error) c h in
      if_keep SetupTimed (is_ok (sm_consume w id (finish_input error) c).0)
        (SameTimer-SetupTimed _ _ (finish_accepted-SameTimer id error _) k) k

  resume_operation-SetupTimed :
      (id : String) (o : Option R2Session) (c : Controller p)
      → SetupTimed c
      → SetupTimed (resume_operation w id o c)
  unfolding resume_operation
  resume_operation-SetupTimed id none c h = h
  resume_operation-SetupTimed id (some s) c h =
      let c' = record c { sessions = modify id (set_reconfiguring none) c.sessions } in
      let k : SetupTimed c' = record { timed = h.timed } in
      let r = sm_consume-SetupTimed w id configuration_available c' k in
      if_keep SetupTimed
        (is_require_setup c.machine
          && is_true s.reconfiguring
          && p.has_host (get_url w.token_file c.hass)
          && not (is_empty (get_token w.token_file c.hass)))
        {x = notify connect_msg (sm_consume w id configuration_available c').1}
        (record { timed = r.timed }) k

  pub abort_driver_setup-SetupTimed :
      (id : String) (expired : Bool) (c : Controller p)
      → SetupTimed c
      → SetupTimed (abort_driver_setup w id expired c)
  unfolding abort_driver_setup
  abort_driver_setup-SetupTimed id true c h =
      let k = sm_consume-SetupTimed w id OperationModeInput.setup_error c h in
      if_keep SetupTimed (is_ok (sm_consume w id OperationModeInput.setup_error c).0)
        (cancel_setup_timer-SetupTimed
          (notify (finish_setup_flow_msg id (some timeout))
            (sm_consume w id OperationModeInput.setup_error c).1)
          (record { timed = k.timed }))
        k
  abort_driver_setup-SetupTimed id false c h =
      let k = sm_consume-SetupTimed w id abort_setup c h in
      if_keep SetupTimed (is_ok (sm_consume w id abort_setup c).0)
        (cancel_setup_timer-SetupTimed _ (resume_operation-SetupTimed id _ _ k)) k
