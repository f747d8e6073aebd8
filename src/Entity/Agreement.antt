-- ===== src/Entity/Agreement.antt =====
-- The changes of src/client/event.rs have the same types as the entities of src/client/get_states.rs.
use integration_home_assista.Prelude.{
  String, ◌≡◌, refl, sym, ap, All-map, ◌∙◌, Option, none, some, arith, split_once_dot, inl, inr,
  Option-cases, eq_iff, All, str_eq, ◌||◌, Bool, true, false, if_keep_given, if_keep, if◌then◌else◌,
  is_empty, Bool-cases,
}
use integration_home_assista.Json.{Items, Fields}
use integration_home_assista.Platform.{Platform}
use integration_home_assista.Errors.{Result, ServiceError, bad_request, ok, err}
use integration_home_assista.Api.{
  EntityType, switch, climate, cover, light, media_player, remote, sensor, EntityChange,
}
use integration_home_assista.Entity.Interface.{EventData, Decoder}
use integration_home_assista.Entity.States.{mapped_type, convert_states}
use integration_home_assista.Entity.Events.{convert_change, event_change, changed}
use integration_home_assista.Entity.Common.{EntityLib, change_of}
use integration_home_assista.Entity.Conversions.{conversions}
use integration_home_assista.Entity.Types.{bind_made, HasTypeOfDomain, convert_states_lem}
use integration_home_assista.Entity.Simple.{
  map_onoff_attributes, map_sensor_attributes, map_binary_sensor, switch_event_to_entity_change,
  remote_event_to_entity_change, sensor_event_to_entity_change,
  binary_sensor_event_to_entity_change,
}
use integration_home_assista.Entity.Cover.{map_cover_attributes, cover_event_to_entity_change}
use integration_home_assista.Entity.Climate.{map_climate_attributes, climate_event_to_entity_change}
use integration_home_assista.Entity.Light.{map_light_attributes, light_event_to_entity_change}
use integration_home_assista.Entity.MediaPlayer.{
  map_media_player_attributes, media_player_event_to_entity_change,
}

-- `EntityType::from_str` knows the names of the types.
pub record KnowsTypes {p : Platform} (decoder : Decoder p) : Type 0 where
  pub knows_light : decoder.entity_type "light" ≡ some light
  pub knows_switch : decoder.entity_type "switch" ≡ some switch
  pub knows_cover : decoder.entity_type "cover" ≡ some cover
  pub knows_sensor : decoder.entity_type "sensor" ≡ some sensor
  pub knows_climate : decoder.entity_type "climate" ≡ some climate
  pub knows_media_player : decoder.entity_type "media_player" ≡ some media_player
  pub knows_remote : decoder.entity_type "remote" ≡ some remote

changed-eq-ok :
    {A : Type 0} (r : Option (Result A)) (a : A) → changed r ≡ ok (some a) → r ≡ some (ok a)
changed-eq-ok none a e = cc
changed-eq-ok (some (err problem)) a e = cc
changed-eq-ok (some (ok b)) a e = cc

-- What passes a test that fails otherwise.
not_empty :
    {A : Type 0} (b : Bool) (problem : ServiceError) {r : Result A} {a : A}
    → (if b then err problem else r) ≡ ok a
    → r ≡ ok a
not_empty true problem e = cc
not_empty false problem e = e

module _ {p : Platform} (decoder : Decoder p) (knows : KnowsTypes decoder) (lib : EntityLib p)
    (server : p.Url) (e : EventData p) where
  -- A change of the entity of the event, with the type of the domain.
  abbrev IsChangeOf : String → Option (Result (EntityChange p)) → Type 0
  IsChangeOf domain r =
      (change : EntityChange p)
      → r ≡ some (ok change)
      → (change.entity_id ≡ e.entity_id)
        × (decoder.entity_type (mapped_type domain) ≡ some change.entity_type)

  typed :
      (t : EntityType) (domain : String)
      (attributes : String → Option (Fields p.F64) → Result (Fields p.F64))
      → decoder.entity_type (mapped_type domain) ≡ some t
      → IsChangeOf domain (some (change_of t attributes e))
  typed t domain attributes knows_type change r =
      let (id, type) =
        bind_made (attributes e.state e.attributes) _
          (λ (c : EntityChange p). (c.entity_id ≡ e.entity_id) × (c.entity_type ≡ t))
          (λ x. (refl, refl)) r in
      (id, rw type knows_type)

  ignored : (domain : String) → IsChangeOf domain none
  ignored domain change r = cc

  named :
      (t : EntityType) (domain name : String)
      → decoder.entity_type (mapped_type name) ≡ some t
      → str_eq domain name ≡ true
      → decoder.entity_type (mapped_type domain) ≡ some t
  named t domain name knows_type same = rw ((eq_iff domain name).0 same) knows_type

  named_switch :
      (domain : String)
      → (str_eq domain "switch" || str_eq domain "input_boolean") ≡ true
      → decoder.entity_type (mapped_type domain) ≡ some switch
  unfolding mapped_type
  named_switch domain same = elim (Bool-cases (str_eq domain "switch")) [
    | inl q ↦ named switch domain "switch" knows.knows_switch q
    | inr q ↦ named switch domain "input_boolean" knows.knows_switch (ground arith)
  ]

  convert_change-IsChangeOf :
      (domain : String) → IsChangeOf domain (convert_change (conversions lib) server domain e)
  unfolding convert_change mapped_type light_event_to_entity_change switch_event_to_entity_change
      cover_event_to_entity_change sensor_event_to_entity_change
      binary_sensor_event_to_entity_change climate_event_to_entity_change
      media_player_event_to_entity_change remote_event_to_entity_change
  convert_change-IsChangeOf d =
      if_keep_given (IsChangeOf d) (str_eq d "light")
        (λ q. typed light d (map_light_attributes lib) (named light d "light" knows.knows_light q))
        (if_keep_given (IsChangeOf d) (str_eq d "switch" || str_eq d "input_boolean")
          (λ q. typed switch d (map_onoff_attributes p) (named_switch d q))
          (if_keep (IsChangeOf d)
            (str_eq d "button" || str_eq d "input_button" || str_eq d "script") (ignored d)
            (if_keep_given (IsChangeOf d) (str_eq d "cover")
              (λ q.
                typed cover d (map_cover_attributes p) (named cover d "cover" knows.knows_cover q))
              (if_keep_given (IsChangeOf d) (str_eq d "sensor")
                (λ q.
                  typed sensor d (map_sensor_attributes p)
                    (named sensor d "sensor" knows.knows_sensor q))
                (if_keep_given (IsChangeOf d) (str_eq d "binary_sensor")
                  (λ q.
                    typed sensor d (map_binary_sensor p)
                      (named sensor d "binary_sensor" knows.knows_sensor q))
                  (if_keep_given (IsChangeOf d) (str_eq d "climate")
                    (λ q.
                      typed climate d (map_climate_attributes lib)
                        (named climate d "climate" knows.knows_climate q))
                    (if_keep_given (IsChangeOf d) (str_eq d "media_player")
                      (λ q.
                        typed media_player d (map_media_player_attributes lib server)
                          (named media_player d "media_player" knows.knows_media_player q))
                      (if_keep_given (IsChangeOf d) (str_eq d "remote")
                        (λ q.
                          typed remote d (map_onoff_attributes p)
                            (named remote d "remote" knows.knows_remote q))
                        (ignored d)))))))))

  event_change-typed :
      (change : EntityChange p)
      → event_change decoder (conversions lib) server e ≡ ok (some change)
      → HasTypeOfDomain decoder change.entity_id change.entity_type
  unfolding event_change
  event_change-typed change q = elim (Option-cases (split_once_dot e.entity_id)) [
    | inl r ↦
        let refused : err (bad_request "Invalid entity_id format") ≡ ok (some change) =
          rw (r, event_change) at q in
        cc
    | inr ((domain, name), r) ↦
        let (id, type) = convert_change-IsChangeOf domain change (
          changed-eq-ok _ change
            (not_empty (is_empty e.entity_id || is_empty e.state) _ (rw (r, event_change) at q))) in
        (domain, name, rw id r, type)
  ]

module _ {p : Platform} (decoder : Decoder p) where
  one_type :
      (id : String) (s t : EntityType)
      → HasTypeOfDomain decoder id s
      → HasTypeOfDomain decoder id t
      → s ≡ t
  one_type id s t (domain, name, q, type) (domain', name', q', type') =
      let same : domain ≡ domain' = ground arith in
      let both : some s ≡ some t =
        sym type ∙ ap (λ d. decoder.entity_type (mapped_type d)) same ∙ type' in
      cc

-- Given that the decoder knows the names of the entity types: a change that an event is converted to is
-- of the same type as every entity with its id in a list of states, whatever kind of entity it is.
pub events_match_states :
    {p : Platform} (decoder : Decoder p) (lib : EntityLib p) (server : p.Url)
    → KnowsTypes decoder
    → (states : Items p.F64) (e : EventData p) (change : EntityChange p)
    → event_change decoder (conversions lib) server e ≡ ok (some change)
    → All
        (λ a. a.entity_id ≡ change.entity_id → a.entity_type ≡ change.entity_type)
        (convert_states decoder (conversions lib) server states)
events_match_states decoder lib server knows states e change q =
    All-map (λ a. HasTypeOfDomain decoder a.entity_id a.entity_type)
      (λ a. a.entity_id ≡ change.entity_id → a.entity_type ≡ change.entity_type)
      (convert_states decoder (conversions lib) server states)
      (λ a typed same.
        one_type decoder change.entity_id a.entity_type change.entity_type (rw (← same) typed)
          (event_change-typed decoder knows lib server e change q))
      (convert_states_lem decoder lib server states)
