-- ===== src/Entity/Cover.antt =====
-- src/client/entity/cover.rs.
use integration_home_assista.Prelude.{
  ℕ, String, Option, none, some, List, [], ◌∷◌, str_eq, ◌||◌, leb, if◌then◌else◌,
}
use integration_home_assista.Json.{Value, str, uint, Fields, end, put, get_then, as_str, as_u64}
use integration_home_assista.Platform.{Platform}
use integration_home_assista.Errors.{Result, ok, ◌>>=◌}
use integration_home_assista.Api.{cover}
use integration_home_assista.Entity.Interface.{Convert, EventConvert}
use integration_home_assista.Entity.Events.{convert_ha_onoff_state}
use integration_home_assista.Entity.Common.{
  EntityLib, Feature, open_feature, close_feature, stop_feature, position_feature, entity_name,
  supported_features, has_bit, push_if, feature_texts, change_of,
}

-- The states of a cover, before the general ones.
unfoldable pub cover_state : {F : Type 0} → String → Result (Value F)
unfolding convert_ha_onoff_state
cover_state state =
    if str_eq state "open"
    then ok (str "OPEN")
    else if str_eq state "opening"
    then ok (str "OPENING")
    else if str_eq state "closed"
    then ok (str "CLOSED")
    else if str_eq state "closing"
    then ok (str "CLOSING")
    else convert_ha_onoff_state state

module _ {F : Type 0} where
  -- `Some(value @ 0..=100)` of an attribute, under another key.
  unfoldable pub put_percent : String → String → Fields F → Fields F → Fields F
  unfolding put
  put_percent key dest_key ha_attr attributes = elim (get_then as_u64 key ha_attr) [
    | none ↦ attributes
    | some value ↦ if leb value 100 then put dest_key (uint value) attributes else attributes
  ]

module _ (p : Platform) where
  unfoldable pub put_positions : Option (Fields p.F64) → Fields p.F64 → Fields p.F64
  unfolding put_percent
  put_positions none attributes = attributes
  put_positions (some ha_attr) attributes =
      put_percent "current_tilt_position" "tilt_position" ha_attr
        (put_percent "current_position" "position" ha_attr attributes)

  -- `map_cover_attributes`
  unfoldable pub map_cover_attributes : String → Option (Fields p.F64) → Result (Fields p.F64)
  unfolding cover_state put_positions
  map_cover_attributes state ha_attr = do
    value ← cover_state state
    ok (put_positions ha_attr (put "state" value end))

  unfoldable pub cover_event_to_entity_change : EventConvert p
  unfolding map_cover_attributes
  cover_event_to_entity_change = change_of cover map_cover_attributes

abbrev cover_class : Option String → Option String
cover_class none = none
cover_class (some c) =
    if str_eq c "blind" || str_eq c "curtain" || str_eq c "garage" || str_eq c "shade"
    then some c
    else none

-- The features of a cover, by the bits of its flags.
unfoldable pub cover_features : ℕ → List Feature
cover_features flags = push_if (has_bit 0 flags) (open_feature ∷ []) (
    push_if (has_bit 1 flags) (close_feature ∷ []) (
      push_if (has_bit 3 flags) (stop_feature ∷ [])
        (push_if (has_bit 2 flags) (position_feature ∷ []) [])))

module _ (p : Platform) where
  unfoldable pub convert_cover_entity : EntityLib p → Convert p
  unfolding map_cover_attributes cover_features
  convert_cover_entity lib entity_id state ha_attr = do
    attributes ← map_cover_attributes p state (some ha_attr)
    ok (record {
      entity_id = entity_id;
      device_id = none;
      entity_type = cover;
      device_class = cover_class (get_then as_str "device_class" ha_attr);
      name = entity_name entity_id ha_attr;
      features =
          some (feature_texts lib.feature_text (cover_features (supported_features ha_attr)));
      area = none;
      options = none;
      attributes = some attributes;
    })
