-- ===== src/Controller/SetupTimer/Reachable.antt =====
-- The setup timer over every run of the controller.
use mathlib.Core.Path.{subst}
use mathlib.Core.Option.{some_inj}
use integration_home_assista.Prelude.{ℕ, ◌++◌, ◌≡◌, refl, Option, some, Option-cases, inl, inr}
use integration_home_assista.Json.{Value}
use integration_home_assista.Platform.{Platform}
use integration_home_assista.Api.{Codec, R2Response, runtime_info, version, other_response}
use integration_home_assista.Controller.Messages.{
  SelfMsg, connect_msg, disconnect_msg, abort_driver_setup_msg, request_options_msg,
  request_expert_options_msg, finish_setup_flow_msg,
}
use integration_home_assista.Controller.State.{
  World, Controller, Future, connecting_future, finish_future, new,
}
use integration_home_assista.Controller.Sessions.{r2_response, unwrap_object, r2_session_disconnect}
use integration_home_assista.Controller.Entities.{
  available_entities, set_available_entities, subscribe_ha_events, unsubscribe_ha_events,
}
use integration_home_assista.Controller.Setup.{finish_done}
use integration_home_assista.Controller.Step.{
  Message, new_session_msg, session_disconnect_msg, event_msg, response_msg, request_message,
  connection_msg, entity_msg, available_msg, set_available_msg, setup_driver_message,
  user_data_message, subscribe_message, unsubscribe_message, handle, handle_self, finish_step, Step,
  external, fires, own, ends, Reach, start, next,
}
use integration_home_assista.Controller.SetupTimer.{
  SetupTimed, send_r2_msg-SetupTimed, fired-SetupTimed,
}
use integration_home_assista.Controller.SetupTimer.Steps.{
  connection_event-SetupTimed, disconnect-SetupTimed, connect-SetupTimed, connect_done-SetupTimed,
  new_r2_session-SetupTimed, r2_event-SetupTimed, store_remote_id-SetupTimed,
}
use integration_home_assista.Controller.SetupTimer.Flow.{
  entity_event-SetupTimed, with_subscriptions-SetupTimed, request_msg-SetupTimed,
  setup_driver_msg-SetupTimed, set_driver_user_data_msg-SetupTimed, request_options-SetupTimed,
  request_expert_options-SetupTimed, finish_setup_flow-SetupTimed, abort_driver_setup-SetupTimed,
}

module _ {p : Platform} (codec : Codec p) (w : World p) where
  r2_response-SetupTimed :
      (r : R2Response) (data_ : Option (Value p.F64)) (c : Controller p) {d : Controller p}
      → r2_response w r data_ c ≡ some d
      → SetupTimed c
      → SetupTimed d
  unfolding r2_response
  r2_response-SetupTimed runtime_info data_ c e h = subst SetupTimed (some_inj.0 e) h
  r2_response-SetupTimed other_response data_ c e h = subst SetupTimed (some_inj.0 e) h
  r2_response-SetupTimed version data_ c e h = elim (Option-cases (unwrap_object w data_)) [
    | inl q ↦ cc
    | inr (fs, q) ↦
        subst SetupTimed (some_inj.0 (rw (q, r2_response) at e))
          (store_remote_id-SetupTimed w _ c h)
  ]

  handle-SetupTimed :
      (m : Message p) (c : Controller p) {d : Controller p}
      → handle codec w m c ≡ some d
      → SetupTimed c
      → SetupTimed d
  unfolding handle r2_session_disconnect available_entities set_available_entities
      subscribe_ha_events unsubscribe_ha_events
  handle-SetupTimed (new_session_msg id addr) c e h =
      subst SetupTimed (some_inj.0 e) (new_r2_session-SetupTimed w id addr c h)
  handle-SetupTimed (session_disconnect_msg id) c e h =
      subst SetupTimed (some_inj.0 e) (record { timed = h.timed })
  handle-SetupTimed (event_msg id x) c e h =
      subst SetupTimed (some_inj.0 e) (r2_event-SetupTimed w id x c h)
  handle-SetupTimed (response_msg r data_) c e h = r2_response-SetupTimed r data_ c e h
  handle-SetupTimed (request_message msg) c e h =
      subst SetupTimed (some_inj.0 e) (request_msg-SetupTimed codec w msg c h)
  handle-SetupTimed (connection_msg id s) c e h =
      subst SetupTimed (some_inj.0 e) (connection_event-SetupTimed w id s c h)
  handle-SetupTimed (entity_msg change) c e h =
      subst SetupTimed (some_inj.0 e) (entity_event-SetupTimed w change c h)
  handle-SetupTimed (available_msg entities) c e h =
      subst SetupTimed (some_inj.0 e) (record { timed = h.timed })
  handle-SetupTimed (set_available_msg entities) c e h =
      subst SetupTimed (some_inj.0 e) (record { timed = h.timed })
  handle-SetupTimed (setup_driver_message id data_) c e h =
      subst SetupTimed (some_inj.0 e) (setup_driver_msg-SetupTimed w id data_ c h)
  handle-SetupTimed (user_data_message id data_) c e h =
      subst SetupTimed (some_inj.0 e) (set_driver_user_data_msg-SetupTimed w id data_ c h)
  handle-SetupTimed (subscribe_message id data_) c e h =
      subst SetupTimed (some_inj.0 e) (with_subscriptions-SetupTimed w _ id _ c h)
  handle-SetupTimed (unsubscribe_message id data_) c e h =
      subst SetupTimed (some_inj.0 e) (with_subscriptions-SetupTimed w _ id _ c h)

module _ {p : Platform} (w : World p) where
  handle_self-SetupTimed :
      (m : SelfMsg) (c : Controller p) → SetupTimed c → SetupTimed (handle_self w m c)
  unfolding handle_self
  handle_self-SetupTimed connect_msg c h = connect-SetupTimed w c h
  handle_self-SetupTimed disconnect_msg c h = disconnect-SetupTimed w c h
  handle_self-SetupTimed (abort_driver_setup_msg id expired) c h =
      abort_driver_setup-SetupTimed w id expired c h
  handle_self-SetupTimed (request_options_msg id) c h = request_options-SetupTimed w id c h
  handle_self-SetupTimed (request_expert_options_msg id) c h =
      request_expert_options-SetupTimed w id c h
  handle_self-SetupTimed (finish_setup_flow_msg id error) c h =
      finish_setup_flow-SetupTimed w id error c h

  finish_step-SetupTimed :
      (result : Option ℕ) (f : Future p) (c : Controller p)
      → SetupTimed c
      → SetupTimed (finish_step w result f c)
  unfolding finish_step finish_done
  finish_step-SetupTimed result (connecting_future request) c h =
      connect_done-SetupTimed w request result c h
  finish_step-SetupTimed result (finish_future delay id e) c h = send_r2_msg-SetupTimed w e id c h

module _ {p : Platform} {codec : Codec p} where
  Step-SetupTimed : {c d : Controller p} → Step codec c d → SetupTimed c → SetupTimed d
  Step-SetupTimed {c} (external w m e) h = handle-SetupTimed codec w m c e h
  Step-SetupTimed {c} (fires w before after t _ e) h =
      rw e (handle_self-SetupTimed w t.message _ (fired-SetupTimed t.handle c h))
  Step-SetupTimed {c} (own w m rest _ e) h =
      rw e (handle_self-SetupTimed w m (record c { queue = rest }) (record { timed = h.timed }))
  Step-SetupTimed {c} (ends w result before after f _ e) h = rw e (
      finish_step-SetupTimed w result f (record c { futures = before ++ after })
        (record { timed = h.timed }))

  -- In every state that the controller reaches, each pending timeout of the setup flow is the one
  -- that the controller has kept the handle of, and it keeps a handle only in the states `SetupFlow`
  -- and `WaitSetupUserData`.
  pub Reach-SetupTimed : {c : Controller p} → Reach codec c → SetupTimed c
  unfolding new
  Reach-SetupTimed (start token_file hass drv_metadata) = record {
    timed = record { is_named = tt; active = λ k. absurd (k refl) };
  }
  Reach-SetupTimed (next r s) = Step-SetupTimed s (Reach-SetupTimed r)
