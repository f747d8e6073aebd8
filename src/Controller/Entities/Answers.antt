-- ===== src/Controller/Entities/Answers.antt =====
-- How the pending requests for entities are answered when the client delivers its entities.
use mathlib.Core.Option.{some_inj}
use integration_home_assista.Prelude.{
  ℕ, true, false, String, List, [], ◌∷◌, ◌≡◌, refl, Option, none, some, arith, eq_iff, str_eq, map,
  Bool-cases, IsIn, here, there, inl, inr, sym, ap, ◌∙◌,
}
use integration_home_assista.Prelude.Dict.{Dict, lookup}
use integration_home_assista.Platform.{Platform}
use integration_home_assista.Api.{AvailableIntgEntity}
use integration_home_assista.Controller.Messages.{
  WsMessage, response, available_entities_data, entity_states_data, Sent, to_r2,
}
use integration_home_assista.Controller.State.{World, Controller, R2Session}
use integration_home_assista.Controller.Entities.{
  answer_session, answer_sessions, add_sent, available_entities, due_answer, to_change,
}

module _ {p : Platform} (w : World p) (es : List (AvailableIntgEntity p)) where
  session_after :
      (id : String) (d : Dict R2Session) (sent : List (Sent p)) (s : R2Session)
      → lookup id d ≡ some s
      → lookup id (answer_sessions w es d sent).0 ≡ some (answer_session w es s).0
  unfolding lookup answer_sessions
  session_after id [] sent s e = ground (arith)
  session_after id ((j, t) ∷ d) sent s e = ground (
    arith,
    eq_iff j id,
    session_after id d (add_sent w t.recipient (answer_session w es t).1 sent) s,
  )

  added :
      (r : ℕ) (o : Option (WsMessage p)) (sent : List (Sent p)) (x : Sent p)
      → IsIn x sent
      → IsIn x (add_sent w r o sent)
  added r none sent x h = h
  added r (some m) sent x h = there h

  keeps_sent :
      (d : Dict R2Session) (sent : List (Sent p)) (x : Sent p)
      → IsIn x sent
      → IsIn x (answer_sessions w es d sent).1
  unfolding answer_sessions
  keeps_sent [] sent x h = h
  keeps_sent ((j, t) ∷ d) sent x h =
      keeps_sent d _ x (added t.recipient (answer_session w es t).1 sent x h)

  answer_sent :
      (id : String) (d : Dict R2Session) (sent : List (Sent p)) (s : R2Session) (m : WsMessage p)
      → lookup id d ≡ some s
      → (answer_session w es s).1 ≡ some m
      → IsIn (to_r2 s.recipient m) (answer_sessions w es d sent).1
  unfolding lookup answer_sessions
  answer_sent id [] sent s m e h = cc
  answer_sent id ((j, t) ∷ d) sent s m e h = elim (Bool-cases (str_eq j id)) [
    | inr q ↦ answer_sent id d _ s m (rw (q, lookup) at e) h
    | inl q ↦
        let t_is : t ≡ s = some_inj.0 (rw (q, lookup) at e) in
        let k : (answer_session w es t).1 ≡ some m = rw t_is h in
        rw (sym t_is) (keeps_sent d _ _ (rw k here))
  ]

  answered :
      (s s' : R2Session) (m : WsMessage p)
      → s.standby ≡ false
      → due_answer es s ≡ some (m, s')
      → w.r2_accepts s.recipient m ≡ true
      → answer_session w es s ≡ (s', some m)
  unfolding answer_session due_answer
  answered s s' m b d a = rw (b, d, a, answer_session) refl

  asleep : (s : R2Session) → s.standby ≡ true → (answer_session w es s).0 ≡ s
  unfolding answer_session
  asleep s b = rw (b, answer_session) refl

  first_due :
      (s : R2Session) (n : ℕ)
      → s.get_available_entities_id ≡ some n
      → due_answer es s
        ≡ some (
          response n "available_entities" (available_entities_data es),
          record s { get_available_entities_id = none },
        )
  unfolding due_answer
  first_due s n k = rw (k, due_answer) refl

  second_due :
      (s : R2Session) (n : ℕ)
      → s.get_available_entities_id ≡ none
      → s.get_entity_states_id ≡ some n
      → due_answer es s
        ≡ some (
          response n "entity_states" (entity_states_data (map to_change es)),
          record s { get_entity_states_id = none },
        )
  unfolding due_answer
  second_due s n j k = ground arith

  -- When the entities of Home Assistant arrive, for a session whose remote accepts messages: in
  -- standby it stays as it is. Otherwise a pending request for the available entities is answered
  -- and no longer pending, and one for the states is kept meanwhile; without such a request, a
  -- pending request for the states is answered and no longer pending.
  pub available_entities_lem :
      (id : String) (s : R2Session) (c : Controller p)
      → lookup id c.sessions ≡ some s
      → ((m : WsMessage p) → w.r2_accepts s.recipient m ≡ true)
      → let d = available_entities w es c in
        ((n : ℕ)
          → s.standby ≡ false
          → s.get_available_entities_id ≡ some n
          → (lookup id d.sessions ≡ some (record s { get_available_entities_id = none }))
            × IsIn
                (to_r2 s.recipient (response n "available_entities" (available_entities_data es)))
                d.sent)
        × ((n : ℕ)
            → s.standby ≡ false
            → s.get_available_entities_id ≡ none
            → s.get_entity_states_id ≡ some n
            → (lookup id d.sessions ≡ some (record s { get_entity_states_id = none }))
              × IsIn
                  (to_r2 s.recipient
                    (response n "entity_states" (entity_states_data (map to_change es))))
                  d.sent)
        × (s.standby ≡ true → lookup id d.sessions ≡ some s)
  unfolding available_entities
  available_entities_lem id s c e a =
      let after = session_after id c.sessions c.sent s e in
      (
        λ n b k.
            let q = answered s _ _ b (first_due s n k) (a _) in
            (
              after ∙ ap (λ x. some x.0) q,
              answer_sent id c.sessions c.sent s _ e (ap (λ x. x.1) q),
            ),
        λ n b j k.
            let q = answered s _ _ b (second_due s n j k) (a _) in
            (
              after ∙ ap (λ x. some x.0) q,
              answer_sent id c.sessions c.sent s _ e (ap (λ x. x.1) q),
            ),
        λ b. after ∙ ap some (asleep s b),
      )
