-- ===== src/Client/Safety/Keeps.antt =====
-- The operations that leave the subscription to the standard events alone (src/client).
use integration_home_assista.Prelude.{
  ℕ, ◌≡◌, refl, ◌∙◌, String, List, Bool, true, Option, is_some, arith, if_keep,
}
use integration_home_assista.Json.{Fields, Value}
use integration_home_assista.Platform.{Platform}
use integration_home_assista.Entity.Interface.{Decoder, Converters}
use integration_home_assista.Client.State.{
  HaClient, Surroundings, CloseCode, Later, heartbeat_later, force_stop_later,
  component_check_later,
}
use integration_home_assista.Client.Socket.{send_json}
use integration_home_assista.Client.Subscriptions.{
  send_uc_info_command, subscribe_uc_configuration, unsubscribe_uc_configuration,
  subscribe_uc_events, unsubscribe_uc_events, renew_uc_configuration, renew_uc_events,
  check_uc_ha_component,
}
use integration_home_assista.Client.Text.{auth_required, auth_ok, on_event, states_result}
use integration_home_assista.Client.Handlers.{
  close_handler, request_states, reserve_states, set_remote_id_handler, subscribed_entities_handler,
}
use integration_home_assista.Client.Step.{beat, check_again, run_task}

-- Events that are subscribed have an id.
pub data IsSubscribed (subscribed : Bool) (id : Option ℕ) : Type 0 where
  with_id : (subscribed ≡ true → is_some id ≡ true) → IsSubscribed subscribed id

module _ {p : Platform} where
  -- The subscription to the standard events is the same.
  abbrev pub Keeps : HaClient p → HaClient p → Type 0
  Keeps c d =
      (d.subscribed_events ≡ c.subscribed_events)
      × (d.subscribe_standard_events_id ≡ c.subscribe_standard_events_id)

  pub Keeps-then : (c d e : HaClient p) → Keeps c d → Keeps d e → Keeps c e
  Keeps-then c d e h k = (k.0 ∙ h.0, k.1 ∙ h.1)

  abbrev pub IsSound : HaClient p → Type 0
  IsSound c = IsSubscribed c.subscribed_events c.subscribe_standard_events_id

  pub Keeps-IsSound : (c d : HaClient p) → Keeps c d → IsSound c → IsSound d
  Keeps-IsSound c d (e, q) h = rw (e, q) h

module _ {p : Platform} (w : Surroundings p) (c : HaClient p) where
  pub send_uc_info_command-Keeps : Keeps c (send_uc_info_command w c)
  unfolding send_uc_info_command
  send_uc_info_command-Keeps = ground arith

  pub check_uc_ha_component-Keeps :
      (ha_start_time : ℕ) → Keeps c (check_uc_ha_component w ha_start_time c)
  unfolding check_uc_ha_component
  check_uc_ha_component-Keeps ha_start_time = ground arith

  unsubscribe_uc_configuration-Keeps : Keeps c (unsubscribe_uc_configuration w c)
  unfolding unsubscribe_uc_configuration
  unsubscribe_uc_configuration-Keeps = ground arith

  subscribe_uc_configuration-Keeps : Keeps c (subscribe_uc_configuration w c)
  unfolding subscribe_uc_configuration
  subscribe_uc_configuration-Keeps = ground arith

  unsubscribe_uc_events-Keeps : Keeps c (unsubscribe_uc_events w c)
  unfolding unsubscribe_uc_events
  unsubscribe_uc_events-Keeps = ground arith

  subscribe_uc_events-Keeps : Keeps c (subscribe_uc_events w c)
  unfolding subscribe_uc_events
  subscribe_uc_events-Keeps = ground arith

  pub close_handler-Keeps : (code : CloseCode) → Keeps c (close_handler w code c)
  unfolding close_handler
  close_handler-Keeps code = ground arith

  pub send_json-Keeps : (msg : Value p.F64) → Keeps c (send_json w msg c).1
  unfolding send_json
  send_json-Keeps msg = ground arith

  pub auth_required-Keeps : Keeps c (auth_required w c)
  unfolding auth_required
  auth_required-Keeps = ground arith

  pub beat-Keeps : Keeps c (beat w c)
  unfolding beat
  beat-Keeps = ground arith

module _ {p : Platform} (w : Surroundings p) (c : HaClient p) where
  pub renew_uc_configuration-Keeps : Keeps c (renew_uc_configuration w c)
  unfolding renew_uc_configuration
  renew_uc_configuration-Keeps =
      let d = unsubscribe_uc_configuration w c in
      Keeps-then c d (subscribe_uc_configuration w d) (unsubscribe_uc_configuration-Keeps w c)
        (subscribe_uc_configuration-Keeps w d)

  pub renew_uc_events-Keeps : Keeps c (renew_uc_events w c)
  unfolding renew_uc_events
  renew_uc_events-Keeps =
      let d = unsubscribe_uc_events w c in
      Keeps-then c d (subscribe_uc_events w d) (unsubscribe_uc_events-Keeps w c)
        (subscribe_uc_events-Keeps w d)

  pub request_states-Keeps :
      (remote_id : String) (id : ℕ) (ids : List String)
      → Keeps c (request_states w id ids (reserve_states w remote_id c)).1
  unfolding request_states reserve_states
  request_states-Keeps remote_id id ids = ground arith

module _ {p : Platform} (w : Surroundings p) (c : HaClient p) where
  pub renew_both-Keeps : Keeps c (renew_uc_events w (renew_uc_configuration w c))
  renew_both-Keeps =
      let d = renew_uc_configuration w c in
      Keeps-then c d (renew_uc_events w d) (renew_uc_configuration-Keeps w c)
        (renew_uc_events-Keeps w d)

  pub auth_ok-Keeps : Keeps c (auth_ok w c)
  unfolding auth_ok
  auth_ok-Keeps =
      let d = record c { authenticated = true } in
      let e = send_uc_info_command w d in
      Keeps-then c e (check_uc_ha_component w w.now e) (send_uc_info_command-Keeps w d)
        (check_uc_ha_component-Keeps w e w.now)

  check_again-Keeps : (ha_start_time : ℕ) → Keeps c (check_again w ha_start_time c)
  unfolding check_again
  check_again-Keeps ha_start_time =
      let e = send_uc_info_command w c in
      if_keep (λ (d : HaClient p). Keeps c d) c.uc_ha_component (refl, refl)
        (Keeps-then c e (check_uc_ha_component w ha_start_time e) (send_uc_info_command-Keeps w c)
          (check_uc_ha_component-Keeps w e ha_start_time))

  pub run_task-Keeps : (task : Later) → Keeps c (run_task w task c)
  unfolding run_task
  run_task-Keeps heartbeat_later = beat-Keeps w c
  run_task-Keeps force_stop_later = (refl, refl)
  run_task-Keeps (component_check_later ha_start_time) = check_again-Keeps ha_start_time

  pub set_remote_id_handler-Keeps :
      (remote_id : String) → Keeps c (set_remote_id_handler w remote_id c).1
  unfolding set_remote_id_handler
  set_remote_id_handler-Keeps remote_id =
      if_keep (λ (d : HaClient p). Keeps c d) c.uc_ha_component
        (renew_uc_configuration-Keeps w (record c { remote_id = remote_id })) (refl, refl)

  pub subscribed_entities_handler-Keeps :
      (ids : List String) → Keeps c (subscribed_entities_handler w ids c)
  unfolding subscribed_entities_handler
  subscribed_entities_handler-Keeps ids =
      let e = record c { subscribed_entities = ids } in
      let d = renew_uc_configuration w e in
      if_keep (λ (d : HaClient p). Keeps c d) c.authenticated
        (Keeps-then c d (renew_uc_events w d) (renew_uc_configuration-Keeps w e)
          (renew_uc_events-Keeps w d))
        (refl, refl)

module _ {p : Platform} (decoder : Decoder p) (converters : Converters p) (w : Surroundings p) where
  pub on_event-Keeps :
      (id : ℕ) (msg : Fields p.F64) (c : HaClient p)
      → Keeps c (on_event decoder converters w id msg c)
  unfolding on_event
  on_event-Keeps id msg c = ground arith

  pub states_result-Keeps :
      (success : Bool) (msg : Fields p.F64) (c : HaClient p)
      → Keeps c (states_result decoder converters w success msg c)
  unfolding states_result
  states_result-Keeps success msg c = ground arith
