-- ===== src/Client/Ids/Messages.antt =====
-- The ids of the messages that the client writes while it handles a text message
-- (`on_text_message` of src/client/mod.rs).
use integration_home_assista.Prelude.{
  ℕ, ◌≡◌, refl, String, Bool, true, false, List, some, inl, inr, arith, or_else, ◌%◌, ◌^◌,
  map-eq-some, Option-cases,
}
use integration_home_assista.Json.{
  Fields, str, obj, field, end, Items, get, get_then, as_u64, as_bool,
}
use integration_home_assista.Api.{AvailableIntgEntity}
use integration_home_assista.Platform.{Platform}
use integration_home_assista.Entity.Interface.{Decoder, Converters}
use integration_home_assista.Controller.Connection.{client_connected}
use integration_home_assista.Client.State.{
  HaClient, Surroundings, Notice, text_frame, tell, connection_event,
}
use integration_home_assista.Client.Subscriptions.{
  send_uc_info_command, unsubscribe_standard_events, renew_uc_configuration,
}
use integration_home_assista.Client.Text.{
  end_standard_events, component_found, info_result, auth_required, auth_ok, tell_states, on_event,
  states_result, on_result, on_message, on_text_message, json_object_from_text_msg,
}
use integration_home_assista.Client.Ids.Fresh.{
  Issues, issued, Issued-Fresh, Issued-then, Issued-more, Fresh-anonymous,
}
use integration_home_assista.Client.Ids.Subscriptions.{
  send_uc_info_command-Issues, subscribe_standard_events-Issues, unsubscribe_standard_events-Issues,
  renew_uc_configuration-Issues, renew_uc_events-Issues, check_uc_ha_component-Issues,
}

module _ {p : Platform} where
  -- What writes nothing issues no id.
  abbrev pub IsQuiet : HaClient p → HaClient p → Type 0
  IsQuiet c d = (d.ws_id ≡ c.ws_id) × (d.written ≡ c.written)

  pub IsQuiet-Issues : (c d : HaClient p) → IsQuiet c d → Issues 0 c d
  IsQuiet-Issues c d (e, q) = issued λ few f. rw (e, q) (f, omega arith)

module _ {p : Platform} (w : Surroundings p) (c : HaClient p) where
  end_standard_events-Issues : (d : HaClient p) → end_standard_events w c ≡ some d → Issues 1 c d
  unfolding end_standard_events
  end_standard_events-Issues d e = issued λ few f. ground (
    arith,
    λ (q : unsubscribe_standard_events w c ≡ some d).
        Issued-Fresh (unsubscribe_standard_events-Issues w c d q),
  )

module _ {p : Platform} (w : Surroundings p) (c : HaClient p) where
  component_found-Issues : (d : HaClient p) → component_found w c ≡ some d → Issues 5 c d
  unfolding component_found
  component_found-Issues d e =
      let found = record (tell (connection_event c.id client_connected) c) {
        uc_ha_component = true;
      } in
      let (c', q, r) = map-eq-some _ (end_standard_events w found) e in
      rw r (
        Issued-then (end_standard_events-Issues w found c' q) (
          Issued-then (renew_uc_configuration-Issues w c')
            (renew_uc_events-Issues w (renew_uc_configuration w c'))))

  info_result-Issues :
      (success : Bool) (d : HaClient p) → info_result w success c ≡ some d → Issues 5 c d
  unfolding info_result
  info_result-Issues true d e = component_found-Issues d e
  info_result-Issues false d e =
      Issued-more {j = 1} 5 (omega arith)
        (issued λ few f. ground (arith, Issued-Fresh (subscribe_standard_events-Issues w c) few f))

  auth_required-Issues : Issues 0 c (auth_required w c)
  unfolding auth_required get
  auth_required-Issues = issued λ few f. ground (
    arith,
    Fresh-anonymous c.ws_id
        (text_frame
          (obj (field "type" (str "auth") (field "access_token" (str c.access_token) end))))
        c.written refl f,
  )

  auth_ok-Issues : Issues 1 c (auth_ok w c)
  unfolding auth_ok
  auth_ok-Issues =
      let known = record c { authenticated = true } in
      Issued-then (send_uc_info_command-Issues w known)
        (check_uc_ha_component-Issues w (send_uc_info_command w known) w.now)

module _ {p : Platform} (decoder : Decoder p) (converters : Converters p) (w : Surroundings p) where
  tell_states-IsQuiet :
      (notice : String → List (AvailableIntgEntity p) → Notice p) (states : Items p.F64)
      (c : HaClient p)
      → IsQuiet c (tell_states decoder converters w notice states c)
  unfolding tell_states
  tell_states-IsQuiet notice states c = ground arith

  on_event-IsQuiet :
      (id : ℕ) (msg : Fields p.F64) (c : HaClient p)
      → IsQuiet c (on_event decoder converters w id msg c)
  unfolding on_event
  on_event-IsQuiet id msg c = ground arith

  states_result-IsQuiet :
      (success : Bool) (msg : Fields p.F64) (c : HaClient p)
      → IsQuiet c (states_result decoder converters w success msg c)
  unfolding states_result
  states_result-IsQuiet success msg c = ground arith

  on_result-Issues :
      (id : ℕ) (msg : Fields p.F64) (c d : HaClient p)
      → on_result decoder converters w id msg c ≡ some d
      → Issues 5 c d
  unfolding on_result
  on_result-Issues id msg c d e = issued λ few f. ground (
    arith,
    λ (q : info_result w (or_else (get_then as_bool "success" msg) false) c ≡ some d).
        Issued-Fresh (info_result-Issues w c _ d q) few f,
    states_result-IsQuiet (or_else (get_then as_bool "success" msg) false) msg c,
  )

  on_message-Issues :
      (msg : Fields p.F64) (c d : HaClient p)
      → on_message decoder converters w msg c ≡ some d
      → Issues 5 c d
  unfolding on_message
  on_message-Issues msg c d e =
      let id = or_else (get_then as_u64 "id" msg) 0 % 2 ^ 32 in
      issued λ few f. ground (
        arith,
        on_event-IsQuiet id msg c,
        λ (q : on_result decoder converters w id msg c ≡ some d).
            Issued-Fresh (on_result-Issues id msg c d q) few f,
        Issued-Fresh (auth_required-Issues w c) (omega arith) f,
        Issued-Fresh (auth_ok-Issues w c) (omega arith) f,
      )

  pub on_text_message-Issues :
      (bytes : List ℕ) (c d : HaClient p)
      → on_text_message decoder converters w bytes c ≡ some d
      → Issues 5 c d
  unfolding on_text_message
  on_text_message-Issues bytes c d e =
      elim (Option-cases (json_object_from_text_msg decoder bytes)) [
        | inl q ↦ issued λ few f. ground arith
        | inr (msg, q) ↦ on_message-Issues msg c d (ground arith)
      ]
