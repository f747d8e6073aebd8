-- ===== src/Controller/Entities/Subscriptions.antt =====
-- The event subscriptions of a remote.
use integration_home_assista.Prelude.{
  String, List, [], ◌∷◌, ◌≡◌, ◌≢◌, refl, ap, ◌∙◌, Option, none, some, arith, not, ◌&&◌, ◌||◌,
  eq_iff, eq_refl, str_eq,
}
use integration_home_assista.Prelude.Dict.{lookup, lookup-modify}
use integration_home_assista.Json.{Value}
use integration_home_assista.Platform.{Platform}
use integration_home_assista.Errors.{Result, ok, err, service_unavailable}
use integration_home_assista.Api.{Codec, deserialize}
use integration_home_assista.Controller.Machine.{running}
use integration_home_assista.Controller.State.{World, Controller, R2Session}
use integration_home_assista.Controller.Entities.{
  contains, set_insert, set_extend, set_remove, set_remove_all, set_subscribed,
  update_subscriptions, with_subscriptions, subscribe_ha_events, unsubscribe_ha_events,
}

contains-set_insert :
    (k j : String) (set : List String)
    → contains k (set_insert j set) ≡ (str_eq j k || contains k set)
unfolding set_insert contains
contains-set_insert k j set = ground (arith, eq_iff j k)

contains-set_remove :
    (k j : String) (set : List String)
    → contains k (set_remove j set) ≡ (not (str_eq j k) && contains k set)
unfolding set_remove contains
contains-set_remove k j [] = ground arith
contains-set_remove k j (i ∷ set) =
    ground (arith, eq_iff j k, eq_iff i j, eq_iff i k, contains-set_remove k j set)

-- `extend` adds the names given, and no others.
contains-set_extend :
    (k : String) (ks set : List String)
    → contains k (set_extend ks set) ≡ (contains k ks || contains k set)
unfolding set_extend contains
contains-set_extend k [] set = refl
contains-set_extend k (j ∷ ks) set =
    ground (arith, contains-set_extend k ks (set_insert j set), contains-set_insert k j set)

contains-set_remove_all :
    (k : String) (ks set : List String)
    → contains k (set_remove_all ks set) ≡ (not (contains k ks) && contains k set)
unfolding set_remove_all contains
contains-set_remove_all k [] set = refl
contains-set_remove_all k (j ∷ ks) set =
    ground (arith, contains-set_remove_all k ks (set_remove j set), contains-set_remove k j set)

-- The subscriptions of a session; a session that does not exist has none.
abbrev pub subscriptions : Option R2Session → List String
subscriptions none = []
subscriptions (some s) = s.subscribed_entities

module _ {p : Platform} (w : World p) where
  after_update :
      (id : String) (set : List String) (c : Controller p) (s : R2Session)
      → lookup id c.sessions ≡ some s
      → subscriptions (lookup id (update_subscriptions w id set c).1.sessions) ≡ set
  unfolding update_subscriptions
  after_update id set c s e =
      ground (arith, eq_refl id, lookup-modify id id (set_subscribed set) c.sessions)

  stored :
      (f : List String → List String → List String) (id : String) (r : Result (List String))
      (ids : List String) (c : Controller p) (s : R2Session)
      → c.machine ≡ running
      → lookup id c.sessions ≡ some s
      → r ≡ ok ids
      → subscriptions (lookup id (with_subscriptions w f id r c).1.sessions)
        ≡ f ids s.subscribed_entities
  unfolding with_subscriptions
  stored f id r ids c s m e d = ground (arith, after_update id (f ids s.subscribed_entities) c s e)

module _ {p : Platform} (codec : Codec p) (w : World p) where
  -- In normal operation, for a known session and a message that decodes to a list of entities: after
  -- a subscription the session has those entities and the ones that it had, and after the end of a
  -- subscription the ones that it had without those. This holds also where the client, if there is
  -- one, could not be told.
  pub subscribe_ha_events_lem :
      (id : String) (data_ : Option (Value p.F64)) (ids : List String) (c : Controller p)
      (s : R2Session) (k : String)
      → c.machine ≡ running
      → lookup id c.sessions ≡ some s
      → deserialize codec.subscribe_events_data data_ ≡ ok ids
      → (contains k (subscriptions (lookup id (subscribe_ha_events w codec id data_ c).1.sessions))
          ≡ (contains k ids || contains k s.subscribed_entities))
        × (contains k
              (subscriptions (lookup id (unsubscribe_ha_events w codec id data_ c).1.sessions))
            ≡ (not (contains k ids) && contains k s.subscribed_entities))
  unfolding subscribe_ha_events unsubscribe_ha_events
  subscribe_ha_events_lem id data_ ids c s k m e d =
      let sub = stored w set_extend id _ ids c s m e d in
      let unsub = stored w set_remove_all id _ ids c s m e d in
      (
        ap (contains k) sub ∙ contains-set_extend k ids s.subscribed_entities,
        ap (contains k) unsub ∙ contains-set_remove_all k ids s.subscribed_entities,
      )

  -- Outside normal operation both are refused, and nothing changes.
  pub subscribe_ha_events_refused :
      (id : String) (data_ : Option (Value p.F64)) (c : Controller p)
      → c.machine ≢ running
      → (subscribe_ha_events w codec id data_ c ≡ (err (service_unavailable "Setup required"), c))
        × (unsubscribe_ha_events w codec id data_ c
            ≡ (err (service_unavailable "Setup required"), c))
  unfolding subscribe_ha_events unsubscribe_ha_events with_subscriptions
  subscribe_ha_events_refused id data_ c h = ground arith
