-- ===== src/Client/Subscriptions.antt =====
-- src/client/mod.rs: the subscriptions to the events of Home Assistant and of its Unfolded Circle
-- component, and the search for this component.
use integration_home_assista.Prelude.{
  ◌||◌, ℕ, ◌-◌, ◌/◌, String, Bool, false, Option, none, some, List, [], ◌∷◌, ltb, is_some, keep,
  not, ◌==◌, if◌then◌else◌,
}
use integration_home_assista.Json.{Value, Items, nil, cons, str, uint, arr, obj, field, end}
use integration_home_assista.Platform.{Platform}
use integration_home_assista.Errors.{ok, err}
use integration_home_assista.Client.Socket.{send_json, command}
use integration_home_assista.Client.State.{
  HaClient, Surroundings, Delayed, component_check_later, invalid, next_id, notify_close, run_later,
}

abbrev pub text_items : {F : Type 0} → List String → Items F
text_items [] = nil
text_items (s ∷ ss) = cons (str s) (text_items ss)

abbrev has_other_handle : ℕ → Delayed → Bool
has_other_handle h d = not (d.handle == h)

abbrev pub info_command : {F : Type 0} → ℕ → Value F
info_command id = command id "unfoldedcircle/info" end

abbrev pub unsubscribe_command : {F : Type 0} → ℕ → ℕ → Value F
unsubscribe_command id subscription =
    command id "unsubscribe_events" (field "subscription" (uint subscription) end)

abbrev pub subscribe_command : {F : Type 0} → ℕ → Value F
subscribe_command id = command id "subscribe_events" (field "event_type" (str "state_changed") end)

-- The time of the authentication lies back further than the check lasts, in whole seconds.
abbrev check_is_over : ℕ → ℕ → Option ℕ → Bool
check_is_over now ha_start_time none = false
check_is_over now ha_start_time (some duration) = ltb duration ((now - ha_start_time) / 1000)

module _ {p : Platform} where
  -- `send_uc_info_command`
  unfoldable pub send_uc_info_command : Surroundings p → HaClient p → HaClient p
  unfolding send_json
  send_uc_info_command w c =
      if c.uc_ha_component
      then c
      else (send_json w (info_command (next_id c))
          (record c { ws_id = next_id c; uc_ha_component_info_id = some (next_id c) })).1

  -- `unsubscribe_standard_events`; `none` is the panic of `unwrap`.
  unfoldable pub unsubscribe_standard_events : Surroundings p → HaClient p → Option (HaClient p)
  unfolding send_json
  unsubscribe_standard_events w c = elim c.subscribe_standard_events_id [
    | none ↦ none
    | some subscription ↦
        let sent =
          (send_json w (unsubscribe_command (next_id c) subscription)
            (record c { ws_id = next_id c })).1 in
        some (record sent { subscribe_standard_events_id = none; subscribed_events = false })
  ]

  -- `subscribe_standard_events`
  unfoldable pub subscribe_standard_events : Surroundings p → HaClient p → HaClient p
  unfolding send_json
  subscribe_standard_events w c =
      let (r, sent) =
        send_json w (subscribe_command (next_id c))
          (record c { ws_id = next_id c; subscribe_standard_events_id = some (next_id c) }) in
      elim r [
        | ok _ ↦ sent
        | err _ ↦ record (notify_close invalid sent) {
          subscribe_standard_events_id = none;
          subscribed_events = false;
        }
      ]

  abbrev pub configure_command : Surroundings p → ℕ → HaClient p → Value p.F64
  configure_command w id c = command id "unfoldedcircle/event/configure/subscribe" (
      field "data"
        (obj (field "client_id" (str c.remote_id) (field "version" (str w.app_version) end))) end)

  -- `subscribe_uc_configuration`
  unfoldable pub subscribe_uc_configuration : Surroundings p → HaClient p → HaClient p
  unfolding send_json
  subscribe_uc_configuration w c =
      if is_some c.subscribe_configure_id
      then c
      else let (r, sent) =
          send_json w (configure_command w (next_id c) c)
            (record c { ws_id = next_id c; subscribe_configure_id = some (next_id c) }) in
        elim r [
          | ok _ ↦ sent
          | err _ ↦ record (notify_close invalid sent) { subscribe_configure_id = none }
        ]

  abbrev pub end_command : ℕ → String → ℕ → HaClient p → Value p.F64
  end_command id type subscription c = command id type (
      field "data"
        (obj
          (field "client_id" (str c.remote_id) (field "subscription_id" (uint subscription) end)))
        end)

  -- `unsubscribe_uc_configuration`
  unfoldable pub unsubscribe_uc_configuration : Surroundings p → HaClient p → HaClient p
  unfolding send_json
  unsubscribe_uc_configuration w c = elim c.subscribe_configure_id [
    | none ↦ c
    | some subscription ↦
        let sent =
          (send_json w
            (end_command (next_id c) "unfoldedcircle/event/configure/unsubscribe" subscription c)
            (record c { ws_id = next_id c })).1 in
        record sent { subscribe_configure_id = none }
  ]

  abbrev pub entities_command : ℕ → HaClient p → Value p.F64
  entities_command id c = command id "unfoldedcircle/event/entities/subscribe" (
      field "data"
        (obj (
          field "entities" (arr (text_items c.subscribed_entities))
            (field "client_id" (str c.remote_id) end)))
        end)

  -- `subscribe_uc_events`
  unfoldable pub subscribe_uc_events : Surroundings p → HaClient p → HaClient p
  unfolding send_json
  subscribe_uc_events w c =
      if is_some c.subscribe_uc_events_id
      then c
      else let (r, sent) =
          send_json w (entities_command (next_id c) c)
            (record c { ws_id = next_id c; subscribe_uc_events_id = some (next_id c) }) in
        elim r [
          | ok _ ↦ sent
          | err _ ↦ record (notify_close invalid sent) { subscribe_uc_events_id = none }
        ]

  -- `unsubscribe_uc_events`
  unfoldable pub unsubscribe_uc_events : Surroundings p → HaClient p → HaClient p
  unfolding send_json
  unsubscribe_uc_events w c = elim c.subscribe_uc_events_id [
    | none ↦ c
    | some subscription ↦
        let sent =
          (send_json w
            (end_command (next_id c) "unfoldedcircle/event/entities/unsubscribe" subscription c)
            (record c { ws_id = next_id c })).1 in
        record sent { subscribe_uc_events_id = none }
  ]

  -- The two pairs of calls that renew the subscriptions at the component.
  unfoldable pub renew_uc_configuration : Surroundings p → HaClient p → HaClient p
  unfolding subscribe_uc_configuration unsubscribe_uc_configuration
  renew_uc_configuration w c = subscribe_uc_configuration w (unsubscribe_uc_configuration w c)

  unfoldable pub renew_uc_events : Surroundings p → HaClient p → HaClient p
  unfolding subscribe_uc_events unsubscribe_uc_events
  renew_uc_events w c = subscribe_uc_events w (unsubscribe_uc_events w c)

  -- `if let Some(handle) = self.uc_ha_comp_check_handle.take() { ctx.cancel_future(handle); }`
  unfoldable pub cancel_check : HaClient p → HaClient p
  cancel_check c = elim c.uc_ha_comp_check_handle [
    | none ↦ c
    | some h ↦ record c {
      uc_ha_comp_check_handle = none;
      delayed = keep (has_other_handle h) c.delayed;
    }
  ]

  -- `check_uc_ha_component`
  unfoldable pub check_uc_ha_component : Surroundings p → ℕ → HaClient p → HaClient p
  unfolding cancel_check
  check_uc_ha_component w ha_start_time c =
      let c' = cancel_check c in
      if not w.context_connected
        || c'.uc_ha_component
        || check_is_over w.now ha_start_time c'.uc_ha_component_check_duration
      then c'
      else record (run_later (component_check_later ha_start_time) c'.uc_ha_component_check_interval
          c') { uc_ha_comp_check_handle = some c'.next_handle }
