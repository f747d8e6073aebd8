-- ===== src/Client/Safety/Messages.antt =====
-- The handling of a text message does not panic (`on_text_message` of src/client/mod.rs).
use integration_home_assista.Prelude.{
  if◌then◌else◌, ℕ, ◌≡◌, refl, Bool, true, false, Option, some, List, inl, inr, arith, Option-cases,
  Bool-cases, if_keep, if_keep_given, or_else, str_eq, ◌%◌, ◌^◌,
}
use integration_home_assista.Json.{Fields, get_then, as_bool, as_u64, as_str}
use integration_home_assista.Platform.{Platform}
use integration_home_assista.Entity.Interface.{Decoder, Converters}
use integration_home_assista.Controller.Connection.{client_connected, authentication_failed}
use integration_home_assista.Client.State.{
  HaClient, Surroundings, tell, notify_close, invalid, connection_event,
}
use integration_home_assista.Client.Subscriptions.{
  subscribe_standard_events, renew_uc_configuration, renew_uc_events,
}
use integration_home_assista.Client.Text.{
  end_standard_events, component_found, info_result, configure_result, uc_events_result,
  standard_events_result, on_event, states_result, on_result, on_message, on_text_message,
  is_request, auth_required, auth_ok, json_object_from_text_msg,
}
use integration_home_assista.Client.Safety.Keeps.{
  IsSound, with_id, Keeps-IsSound, renew_both-Keeps, on_event-Keeps, states_result-Keeps,
  auth_required-Keeps, auth_ok-Keeps,
}

module _ {p : Platform} where
  -- No panic, and the next state is sound.
  abbrev pub Continues : Option (HaClient p) → Type 0
  Continues o = (d : HaClient p) × (o ≡ some d) × IsSound d

module _ {p : Platform} (w : Surroundings p) (c : HaClient p) where
  end_standard_events-Continues : IsSound c → Continues (end_standard_events w c)
  unfolding end_standard_events
  end_standard_events-Continues (with_id h) = elim (Bool-cases c.subscribed_events) [
    | inr q ↦ (c, ground arith, with_id h)
    | inl q ↦ elim (Option-cases (end_standard_events w c)) [
      | inl r ↦ absurd (ground arith)
      | inr (d, r) ↦ (d, r, with_id (λ k. ground arith))
    ]
  ]

  subscribe_standard_events-IsSound : IsSound (subscribe_standard_events w c)
  unfolding subscribe_standard_events
  subscribe_standard_events-IsSound = with_id (λ k. ground arith)

  standard_events_result-IsSound :
      (success : Bool) (id : ℕ)
      → is_request id c.subscribe_standard_events_id ≡ true
      → IsSound (standard_events_result success c)
  unfolding standard_events_result
  standard_events_result-IsSound success id e = with_id (λ k. ground arith)

module _ {p : Platform} where
  uc_events_result-IsSound :
      (success : Bool) (c : HaClient p) → IsSound c → IsSound (uc_events_result success c)
  unfolding uc_events_result
  uc_events_result-IsSound true c h = h
  uc_events_result-IsSound false c h = h

module _ {p : Platform} (w : Surroundings p) (c : HaClient p) where
  component_found-Continues : IsSound c → Continues (component_found w c)
  unfolding component_found
  component_found-Continues h =
      let found = record (tell (connection_event c.id client_connected) c) {
        uc_ha_component = true;
      } in
      let (d, q, k) = end_standard_events-Continues w found h in
      (
        renew_uc_events w (renew_uc_configuration w d),
        rw (q, component_found) refl,
        Keeps-IsSound d (renew_uc_events w (renew_uc_configuration w d)) (renew_both-Keeps w d) k,
      )

  info_result-Continues : (success : Bool) → IsSound c → Continues (info_result w success c)
  unfolding info_result
  info_result-Continues true h = component_found-Continues h
  info_result-Continues false h =
      let d = if c.subscribed_events then c else subscribe_standard_events w c in
      (
        d,
        refl,
        if_keep (λ (e : HaClient p). IsSound e) c.subscribed_events h
            (subscribe_standard_events-IsSound w c),
      )

module _ {p : Platform} (decoder : Decoder p) (converters : Converters p) (w : Surroundings p) where
  on_result-Continues :
      (id : ℕ) (msg : Fields p.F64) (c : HaClient p)
      → IsSound c
      → Continues (on_result decoder converters w id msg c)
  unfolding on_result configure_result uc_events_result
  on_result-Continues id msg c h =
      let success = or_else (get_then as_bool "success" msg) false in
      if_keep Continues (is_request id c.uc_ha_component_info_id)
        (info_result-Continues w c success h)
        (if_keep Continues (is_request id c.subscribe_configure_id)
          (configure_result success c, refl, if_keep (λ (e : HaClient p). IsSound e) success h h)
          (if_keep Continues (is_request id c.subscribe_uc_events_id)
            (uc_events_result success c, refl, uc_events_result-IsSound success c h)
            (if_keep_given Continues (is_request id c.subscribe_standard_events_id)
              (λ q. (
                standard_events_result success c,
                refl,
                standard_events_result-IsSound w c success id q,
              ))
              (if_keep Continues (is_request id c.entity_states_id)
                (
                  states_result decoder converters w success msg c,
                  refl,
                  Keeps-IsSound c (states_result decoder converters w success msg c)
                      (states_result-Keeps decoder converters w success msg c) h,
                )
                (c, refl, h)))))

  on_message-Continues :
      (msg : Fields p.F64) (c : HaClient p)
      → IsSound c
      → Continues (on_message decoder converters w msg c)
  unfolding on_message
  on_message-Continues msg c h =
      let id = or_else (get_then as_u64 "id" msg) 0 % 2 ^ 32 in
      let type = or_else (get_then as_str "type" msg) "" in
      if_keep Continues (str_eq type "event")
        (
          on_event decoder converters w id msg c,
          refl,
          Keeps-IsSound c (on_event decoder converters w id msg c)
              (on_event-Keeps decoder converters w id msg c) h,
        )
        (if_keep Continues (str_eq type "result") (on_result-Continues id msg c h) (
          if_keep Continues (str_eq type "auth_required")
            (
              auth_required w c,
              refl,
              Keeps-IsSound c (auth_required w c) (auth_required-Keeps w c) h,
            )
            (if_keep Continues (str_eq type "auth_invalid")
              (tell (connection_event c.id authentication_failed) c, refl, h)
              (if_keep Continues (str_eq type "auth_ok")
                (auth_ok w c, refl, Keeps-IsSound c (auth_ok w c) (auth_ok-Keeps w c) h)
                (if_keep Continues (str_eq type "pong") (record c { last_hb = w.now }, refl, h)
                  (c, refl, h))))))

  pub on_text_message-Continues :
      (bytes : List ℕ) (c : HaClient p)
      → IsSound c
      → Continues (on_text_message decoder converters w bytes c)
  unfolding on_text_message
  on_text_message-Continues bytes c h =
      elim (Option-cases (json_object_from_text_msg decoder bytes)) [
        | inl q ↦ (notify_close invalid c, rw (q, on_text_message) refl, h)
        | inr (msg, q) ↦
            let (d, r, k) = on_message-Continues msg c h in (d, rw (q, on_text_message) r, k)
      ]
