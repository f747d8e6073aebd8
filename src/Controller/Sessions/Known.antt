-- ===== src/Controller/Sessions/Known.antt =====
-- Which remotes the controller knows a session of, through the handlers of the entities and of the
-- requests.
use text.Mathlib.Text.{◌==◌}
use text.Mathlib.TextEquality.{eq_iff}
use integration_home_assista.Prelude.{
  [], ◌∷◌, String, Bool, false, not, List, Option, none, some, is_some, ◌&&◌, ◌||◌, ◌≡◌, refl,
  arith, ◌∙◌, Option-cases, inl, inr,
}
use integration_home_assista.Prelude.Dict.{
  Dict, lookup, insert, erase, modify, lookup-modify, lookup-erase,
}
use integration_home_assista.Platform.{Platform}
use integration_home_assista.Errors.{Result, ok, err}
use integration_home_assista.Api.{Codec, EntityChange, R2Request, AvailableIntgEntity}
use integration_home_assista.Controller.Machine.{r2_request}
use integration_home_assista.Controller.Messages.{WsMessage, Sent, to_r2}
use integration_home_assista.Controller.State.{World, Controller, R2Session}
use integration_home_assista.Controller.Core.{send_r2_msg, sm_consume}
use integration_home_assista.Controller.Entities.{
  answer_session, answer_sessions, available_entities, entity_event, send_to_each, set_subscribed,
  update_subscriptions, with_subscriptions,
}
use integration_home_assista.Controller.Sessions.{set_standby}
use integration_home_assista.Controller.Requests.{
  R2RequestMsg, note_request, stored_entities, set_entities_id, set_states_id, run_request,
  command_client, running_request, session_request, request_msg,
}
use integration_home_assista.Controller.Sessions.Kept.{sessions-send_r2_msg, sessions-sm_consume}

module _ {ℓ} {V : Type ℓ} where
  pub is_some-modify :
      (key id : String) (f : V → V) (map : Dict V)
      → is_some (lookup key (modify id f map)) ≡ is_some (lookup key map)
  is_some-modify key id f map = ground (arith, lookup-modify id key f map)

  pub is_some-insert :
      (key id : String) (value : V) (map : Dict V)
      → is_some (lookup key (insert id value map)) ≡ (id == key || is_some (lookup key map))
  unfolding lookup insert
  is_some-insert key id value [] = ground arith
  is_some-insert key id value (entry ∷ rest) = ground (
    arith,
    is_some-insert key id value rest,
    eq_iff entry.0 key,
    eq_iff entry.0 id,
    eq_iff id key,
  )

  pub is_some-erase :
      (key id : String) (map : Dict V)
      → is_some (lookup key (erase id map)) ≡ (not (id == key) && is_some (lookup key map))
  is_some-erase key id map = ground (arith, lookup-erase id key map)

module _ {p : Platform} where
  -- There is a session of this remote.
  abbrev pub knows : String → Controller p → Bool
  knows key c = is_some (lookup key c.sessions)

module _ {p : Platform} (w : World p) (key : String) where
  knows-send_to_each :
      (m : WsMessage p) (d : Dict R2Session) (c : Controller p)
      → knows key (send_to_each w m d c) ≡ knows key c
  unfolding send_to_each
  knows-send_to_each m [] c = refl
  knows-send_to_each m ((id, s) ∷ d) c =
      ground (arith, knows-send_to_each m d (send_r2_msg w m id c), sessions-send_r2_msg w m id c)

  pub knows-entity_event :
      (e : EntityChange p) (c : Controller p) → knows key (entity_event w e c) ≡ knows key c
  unfolding entity_event
  knows-entity_event e c = knows-send_to_each _ c.sessions c

  knows-answer_sessions :
      (entities : List (AvailableIntgEntity p)) (d : Dict R2Session) (sent : List (Sent p))
      → is_some (lookup key (answer_sessions w entities d sent).0) ≡ is_some (lookup key d)
  unfolding answer_sessions lookup
  knows-answer_sessions entities [] sent = refl
  knows-answer_sessions entities ((id, s) ∷ d) sent =
      elim (Option-cases (answer_session w entities s).1) [
        | inl q ↦ rw (q, answer_sessions) (ground (arith, knows-answer_sessions entities d sent))
        | inr (m, q) ↦
            rw (q, answer_sessions)
              (ground (arith, knows-answer_sessions entities d (to_r2 s.recipient m ∷ sent)))
      ]

  pub knows-available_entities :
      (entities : List (AvailableIntgEntity p)) (c : Controller p)
      → knows key (available_entities w entities c) ≡ knows key c
  unfolding available_entities
  knows-available_entities entities c = knows-answer_sessions entities c.sessions c.sent

  knows-update_subscriptions :
      (id : String) (set : List String) (c : Controller p)
      → knows key (update_subscriptions w id set c).1 ≡ knows key c
  unfolding update_subscriptions
  knows-update_subscriptions id set c =
      ground (arith, is_some-modify key id (set_subscribed set) c.sessions)

  pub knows-with_subscriptions :
      (f : List String → List String → List String) (id : String) (r : Result (List String))
      (c : Controller p)
      → knows key (with_subscriptions w f id r c).1 ≡ knows key c
  unfolding with_subscriptions
  knows-with_subscriptions f id (err e) c = ground arith
  knows-with_subscriptions f id (ok ids) c = elim (Option-cases (lookup id c.sessions)) [
    | inl q ↦ ground arith
    | inr (s, q) ↦ ground (arith, knows-update_subscriptions id (f ids s.subscribed_entities) c)
  ]

module _ {p : Platform} (codec : Codec p) (w : World p) (key : String) where
  knows-stored_entities :
      (msg : R2RequestMsg p) (s : R2Session) (o : Option (List (AvailableIntgEntity p)))
      (c : Controller p)
      → knows key (stored_entities codec w msg s o c).1 ≡ knows key c
  unfolding stored_entities
  knows-stored_entities msg s o c =
      ground (arith, is_some-modify key msg.ws_id (set_entities_id none) c.sessions)

  knows-note_request :
      (msg : R2RequestMsg p) (s : R2Session) (r : R2Request) (c : Controller p)
      → knows key (note_request codec w msg s r c).2 ≡ knows key c
  unfolding note_request
  knows-note_request msg s r c =
      let noted = modify msg.ws_id (set_entities_id (some msg.req_id)) c.sessions in
      ground (
        arith,
        knows-stored_entities msg s c.subscribed_entity_ids (record c { sessions = noted }),
        is_some-modify key msg.ws_id (set_entities_id (some msg.req_id)) c.sessions,
        is_some-modify key msg.ws_id (set_states_id (some msg.req_id)) c.sessions,
      )

  knows-run_request :
      (msg : R2RequestMsg p) (r : R2Request) (ids : List String) (c : Controller p)
      → knows key (run_request codec w msg r ids c).1 ≡ knows key c
  unfolding run_request command_client
  knows-run_request msg r ids c = ground arith

  knows-running_request :
      (msg : R2RequestMsg p) (s : R2Session) (c : Controller p)
      → knows key (running_request codec w msg s c).1 ≡ knows key c
  unfolding running_request
  knows-running_request msg s c =
      let c' = (sm_consume w msg.ws_id r2_request c).1 in
      let noted = note_request codec w msg s msg.request c' in
      ground (
        arith,
        sessions-sm_consume w msg.ws_id r2_request c,
        knows-note_request msg s msg.request c',
        knows-run_request msg msg.request noted.1 noted.2,
      )

  knows-session_request :
      (msg : R2RequestMsg p) (s : R2Session) (c : Controller p)
      → knows key (session_request codec w msg s c).1 ≡ knows key c
  unfolding session_request
  knows-session_request msg s c = ground (arith, knows-running_request msg s c)

  pub knows-request_msg :
      (msg : R2RequestMsg p) (c : Controller p)
      → knows key (request_msg codec w msg c).1 ≡ knows key c
  unfolding request_msg
  knows-request_msg msg c = elim (Option-cases (lookup msg.ws_id c.sessions)) [
    | inl q ↦ rw (q, request_msg)
    | inr (s, q) ↦
        rw (q, request_msg)
          (knows-session_request msg s
              (record c { sessions = modify msg.ws_id (set_standby false) c.sessions })
            ∙ is_some-modify key msg.ws_id (set_standby false) c.sessions)
  ]
