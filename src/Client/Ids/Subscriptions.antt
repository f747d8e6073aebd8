-- ===== src/Client/Ids/Subscriptions.antt =====
-- The ids of the messages about subscriptions (src/client/mod.rs).
use integration_home_assista.Prelude.{ℕ, ◌≡◌, some, inl, inr, arith, Option-cases}
use integration_home_assista.Json.{Fields, str, uint, obj, arr, field, end}
use integration_home_assista.Platform.{Platform}
use integration_home_assista.Client.State.{HaClient, Surroundings}
use integration_home_assista.Client.Subscriptions.{
  send_uc_info_command, subscribe_standard_events, unsubscribe_standard_events,
  subscribe_uc_configuration, unsubscribe_uc_configuration, subscribe_uc_events,
  unsubscribe_uc_events, renew_uc_configuration, renew_uc_events, text_items, check_uc_ha_component,
}
use integration_home_assista.Client.Ids.Fresh.{
  Issues, issued, Issued-then, Fresh-command, Fresh-skip,
}

module _ {p : Platform} (w : Surroundings p) (c : HaClient p) where
  pub send_uc_info_command-Issues : Issues 1 c (send_uc_info_command w c)
  unfolding send_uc_info_command
  send_uc_info_command-Issues = issued λ few f. ground (
    arith,
    Fresh-command c.ws_id "unfoldedcircle/info" end c.written few f,
    Fresh-skip c.ws_id c.written few f,
  )

  pub subscribe_standard_events-Issues : Issues 1 c (subscribe_standard_events w c)
  unfolding subscribe_standard_events
  subscribe_standard_events-Issues = issued λ few f. ground (
    arith,
    Fresh-command c.ws_id "subscribe_events" (field "event_type" (str "state_changed") end)
        c.written few f,
    Fresh-skip c.ws_id c.written few f,
  )

  pub unsubscribe_standard_events-Issues :
      (d : HaClient p) → unsubscribe_standard_events w c ≡ some d → Issues 1 c d
  unfolding unsubscribe_standard_events
  unsubscribe_standard_events-Issues d e = issued λ few f.
      elim (Option-cases c.subscribe_standard_events_id) [
        | inl none_yet ↦ ground arith
        | inr (id, subscribed) ↦ ground (
          arith,
          Fresh-command c.ws_id "unsubscribe_events" (field "subscription" (uint id) end) c.written
              few f,
          Fresh-skip c.ws_id c.written few f,
        )
      ]

  subscribe_uc_configuration-Issues : Issues 1 c (subscribe_uc_configuration w c)
  unfolding subscribe_uc_configuration
  subscribe_uc_configuration-Issues = issued λ few f. ground (
    arith,
    Fresh-command c.ws_id "unfoldedcircle/event/configure/subscribe"
        (field "data"
          (obj (field "client_id" (str c.remote_id) (field "version" (str w.app_version) end))) end)
        c.written few f,
    Fresh-skip c.ws_id c.written few f,
  )

  subscribe_uc_events-Issues : Issues 1 c (subscribe_uc_events w c)
  unfolding subscribe_uc_events
  subscribe_uc_events-Issues = issued λ few f. ground (
    arith,
    Fresh-command c.ws_id "unfoldedcircle/event/entities/subscribe"
        (field "data"
          (obj (
            field "entities" (arr (text_items c.subscribed_entities))
              (field "client_id" (str c.remote_id) end)))
          end)
        c.written few f,
    Fresh-skip c.ws_id c.written few f,
  )

  abbrev ended : ℕ → Fields p.F64
  ended id =
      field "data"
        (obj (field "client_id" (str c.remote_id) (field "subscription_id" (uint id) end))) end

  unsubscribe_uc_configuration-Issues : Issues 1 c (unsubscribe_uc_configuration w c)
  unfolding unsubscribe_uc_configuration
  unsubscribe_uc_configuration-Issues = issued λ few f.
      elim (Option-cases c.subscribe_configure_id) [
        | inl none_yet ↦ ground arith
        | inr (id, subscribed) ↦ ground (
          arith,
          Fresh-command c.ws_id "unfoldedcircle/event/configure/unsubscribe" (ended id) c.written
              few f,
          Fresh-skip c.ws_id c.written few f,
        )
      ]

  unsubscribe_uc_events-Issues : Issues 1 c (unsubscribe_uc_events w c)
  unfolding unsubscribe_uc_events
  unsubscribe_uc_events-Issues = issued λ few f. elim (Option-cases c.subscribe_uc_events_id) [
    | inl none_yet ↦ ground arith
    | inr (id, subscribed) ↦ ground (
      arith,
      Fresh-command c.ws_id "unfoldedcircle/event/entities/unsubscribe" (ended id) c.written few f,
      Fresh-skip c.ws_id c.written few f,
    )
  ]

  pub check_uc_ha_component-Issues :
      (ha_start_time : ℕ) → Issues 0 c (check_uc_ha_component w ha_start_time c)
  unfolding check_uc_ha_component
  check_uc_ha_component-Issues ha_start_time = issued λ few f.
      let keeps : ((check_uc_ha_component w ha_start_time c).ws_id ≡ c.ws_id)
          × ((check_uc_ha_component w ha_start_time c).written ≡ c.written) =
        ground arith in
      rw keeps.0 (rw keeps.1 (f, omega arith))

module _ {p : Platform} (w : Surroundings p) (c : HaClient p) where
  pub renew_uc_configuration-Issues : Issues 2 c (renew_uc_configuration w c)
  unfolding renew_uc_configuration
  renew_uc_configuration-Issues =
      let c' = unsubscribe_uc_configuration w c in
      Issued-then (unsubscribe_uc_configuration-Issues w c) (subscribe_uc_configuration-Issues w c')

  pub renew_uc_events-Issues : Issues 2 c (renew_uc_events w c)
  unfolding renew_uc_events
  renew_uc_events-Issues =
      let c' = unsubscribe_uc_events w c in
      Issued-then (unsubscribe_uc_events-Issues w c) (subscribe_uc_events-Issues w c')
