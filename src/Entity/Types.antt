-- ===== src/Entity/Types.antt =====
-- The entities and the changes of src/client/entity: whose they are, and of which type.
use integration_home_assista.Prelude.{
  String, ◌≡◌, refl, Option, none, some, arith, or_else, split_once_dot, inl, inr, Option-cases,
  All,
}
use integration_home_assista.Json.{Value, Items, nil, cons, Fields, as_str, as_object}
use integration_home_assista.Platform.{Platform}
use integration_home_assista.Errors.{Result, ok, err, ◌>>=◌}
use integration_home_assista.Api.{
  EntityType, button, switch, climate, cover, light, media_player, remote, sensor, activity, macro,
  ir_emitter, AvailableIntgEntity,
}
use integration_home_assista.Entity.Interface.{Decoder}
use integration_home_assista.Entity.States.{
  mapped_type, entry, available_of, convert_entity, convert_state, convert_states,
}
use integration_home_assista.Entity.Common.{EntityLib}
use integration_home_assista.Entity.Conversions.{conversions}
use integration_home_assista.Entity.Simple.{
  map_onoff_attributes, map_sensor_attributes, convert_button_entity, convert_switch_entity,
  convert_remote_entity, convert_sensor_entity,
}
use integration_home_assista.Entity.Cover.{map_cover_attributes, convert_cover_entity}
use integration_home_assista.Entity.Climate.{convert_climate_entity}
use integration_home_assista.Entity.Light.{map_light_attributes, convert_light_entity}
use integration_home_assista.Entity.MediaPlayer.{
  map_media_player_attributes, convert_media_player_entity,
}

available_of-eq-some :
    {p : Platform} (r : Option (Result (AvailableIntgEntity p))) (a : AvailableIntgEntity p)
    → available_of r ≡ some a
    → r ≡ some (ok a)
available_of-eq-some none a e = cc
available_of-eq-some (some (err problem)) a e = cc
available_of-eq-some (some (ok b)) a e = cc

abbrev pub IsOf : {p : Platform} → String → EntityType → AvailableIntgEntity p → Type 0
IsOf id t a = (a.entity_id ≡ id) × (a.entity_type ≡ t)

-- What a conversion makes of its attributes.
pub bind_made :
    {A B : Type 0} (attributes : Result A) (make : A → B) (P : B → Type 0) {b : B}
    → ((a : A) → P (make a))
    → some (attributes >>= λ a. ok (make a)) ≡ some (ok b)
    → P b
bind_made (ok a) make P {b} h e = let q : make a ≡ b = cc in rw (← q) (h a)
bind_made (err problem) make P {b} h e = cc

module _ {p : Platform} (lib : EntityLib p) (server : p.Url) where
  -- An entity keeps its id and has the type of its conversion.
  convert_entity_lem :
      (t : EntityType) (id state : String) (attr : Fields p.F64) (a : AvailableIntgEntity p)
      → convert_entity (conversions lib) server t id state attr ≡ some (ok a)
      → IsOf id t a
  unfolding convert_entity convert_button_entity convert_switch_entity convert_climate_entity
      convert_cover_entity convert_light_entity convert_media_player_entity convert_remote_entity
      convert_sensor_entity
  convert_entity_lem button id state attr a e = ground arith
  convert_entity_lem switch id state attr a e =
      bind_made (map_onoff_attributes p state (some attr)) _ (IsOf id switch) (λ x. (refl, refl)) e
  convert_entity_lem climate id state attr a e = ground arith
  convert_entity_lem cover id state attr a e =
      bind_made (map_cover_attributes p state (some attr)) _ (IsOf id cover) (λ x. (refl, refl)) e
  convert_entity_lem light id state attr a e =
      bind_made (map_light_attributes lib state (some attr)) _ (IsOf id light) (λ x. (refl, refl)) e
  convert_entity_lem media_player id state attr a e =
      bind_made (map_media_player_attributes lib server state (some attr)) _ (IsOf id media_player)
        (λ x. (refl, refl)) e
  convert_entity_lem remote id state attr a e =
      bind_made (map_onoff_attributes p state (some attr)) _ (IsOf id remote) (λ x. (refl, refl)) e
  convert_entity_lem sensor id state attr a e =
      bind_made (map_sensor_attributes p state (some attr)) _ (IsOf id sensor) (λ x. (refl, refl)) e
  convert_entity_lem ir_emitter id state attr a e = cc
  convert_entity_lem activity id state attr a e = cc
  convert_entity_lem macro id state attr a e = cc

-- The type that Home Assistant's domain of an id stands for.
abbrev pub HasTypeOfDomain : {p : Platform} → Decoder p → String → EntityType → Type 0
HasTypeOfDomain decoder id t =
    (domain : String) × (name : String) × (split_once_dot id ≡ some (domain, name))
    × (decoder.entity_type (mapped_type domain) ≡ some t)

module _ {p : Platform} (decoder : Decoder p) (lib : EntityLib p) (server : p.Url) where
  converted :
      (t : EntityType) (id state domain name : String) (attr : Fields p.F64)
      (a : AvailableIntgEntity p)
      → split_once_dot id ≡ some (domain, name)
      → decoder.entity_type (mapped_type domain) ≡ some t
      → available_of (convert_entity (conversions lib) server t id state attr) ≡ some a
      → HasTypeOfDomain decoder a.entity_id a.entity_type
  converted t id state domain name attr a q r e =
      let (same_id, same_type) =
        convert_entity_lem lib server t id state attr a (available_of-eq-some _ a e) in
      (domain, name, rw same_id q, rw same_type r)

  convert_state_lem :
      (v : Value p.F64) (a : AvailableIntgEntity p)
      → convert_state decoder (conversions lib) server v ≡ some a
      → HasTypeOfDomain decoder a.entity_id a.entity_type
  unfolding convert_state
  convert_state_lem v a e =
      let id = or_else (entry as_str "entity_id" v) "" in
      elim (Option-cases (split_once_dot id)) [
        | inl q ↦ absurd (ground arith)
        | inr ((domain, name), q) ↦ elim (Option-cases (decoder.entity_type (mapped_type domain))) [
          | inl r ↦ absurd (ground arith)
          | inr (t, r) ↦ elim (Option-cases (entry as_object "attributes" v)) [
            | inl s ↦ absurd (ground arith)
            | inr (attr, s) ↦
                converted t id (or_else (entry as_str "state" v) "") domain name attr a q r
                  (ground arith)
          ]
        ]
      ]

  -- Every entity of a list of states carries an id with a domain, and the type of this domain.
  pub convert_states_lem :
      (states : Items p.F64)
      → All
          (λ a. HasTypeOfDomain decoder a.entity_id a.entity_type)
          (convert_states decoder (conversions lib) server states)
  unfolding convert_states
  convert_states_lem nil = tt
  convert_states_lem (cons v vs) =
      elim (Option-cases (convert_state decoder (conversions lib) server v)) [
        | inl q ↦ rw (q, convert_states) (convert_states_lem vs)
        | inr (a, q) ↦ rw (q, convert_states) (convert_state_lem v a q, convert_states_lem vs)
      ]
