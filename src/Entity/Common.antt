-- ===== src/Entity/Common.antt =====
-- What the conversions of src/client/entity share, and what they take from `uc_api`, from the floats and
-- from src/util/color.rs.
use integration_home_assista.Prelude.{
  ℕ, ◌/◌, ◌%◌, ◌^◌, String, Bool, Option, none, some, List, [], ◌∷◌, ◌++◌, or_else, ◌==◌,
  if◌then◌else◌,
}
use integration_home_assista.Prelude.Dict.{Dict}
use integration_home_assista.Json.{Value, uint, negative, float, Fields, get_then, as_str, as_u64}
use integration_home_assista.Color.{Floats}
use integration_home_assista.Platform.{Platform}
use integration_home_assista.Errors.{Result, ok, ◌>>=◌}
use integration_home_assista.Api.{EntityType, EntityChange}
use integration_home_assista.Entity.Interface.{EventData}

-- The features of `uc_api` that the code names.
pub data Feature : Type 0 where
  open_feature close_feature stop_feature position_feature : Feature
  on_off heat cool target_temperature current_temperature : Feature
  toggle dim color color_temperature : Feature
  volume volume_up_down select_source mute unmute play_pause stop_media next previous : Feature
  repeat shuffle select_sound_mode seek media_duration media_position media_title : Feature
  media_artist media_album media_image_url media_type : Feature
  send_cmd : Feature

-- The options of a climate entity.
pub data ClimateOption : Type 0 where
  min_temperature max_temperature target_temperature_step temperature_unit : ClimateOption

-- Names: `to_string` of the features and options, `MediaPlayerDeviceClass::try_from` with its
-- `to_string`, and `str::to_uppercase`. Floats: conversions, and the arithmetic of `f32`.
pub record EntityLib (p : Platform) : Type 0 where
  pub feature_text : Feature → String
  pub climate_option_text : ClimateOption → String
  pub media_player_class : String → Option String
  pub to_uppercase : String → String
  -- `(x * 100.0).round() as u64`
  pub percent_u64 : p.F64 → ℕ
  -- `x.round() as u16` and `x.round() as f32`
  pub round_u16 : p.F64 → ℕ
  pub round_f32 : p.F64 → p.F32
  pub default_f64 : p.F64
  -- `x as f32`, `n as f32`, and `{}`
  pub f32_of_f64 : p.F64 → p.F32
  pub f32_of_uint : ℕ → p.F32
  pub f32_text : p.F32 → String
  -- `s > 100.0`, `(s * 255. / 100.).round() as u16` and `h.round() as u16`
  pub above_hundred : p.F32 → Bool
  pub saturation_u16 : p.F32 → ℕ
  pub hue_u16 : p.F32 → ℕ
  pub floats : Floats p.F32

module _ {F : Type 0} where
  -- `ha_attr.get("friendly_name")`, or the id, in English.
  abbrev pub entity_name : String → Fields F → Dict String
  entity_name entity_id ha_attr =
      ("en", or_else (get_then as_str "friendly_name" ha_attr) entity_id) ∷ []

  -- `supported_features` as a `u32`.
  abbrev pub supported_features : Fields F → ℕ
  supported_features ha_attr = or_else (get_then as_u64 "supported_features" ha_attr) 0 % 2 ^ 32

-- `flags & 2 ^ bit > 0`
abbrev pub has_bit : ℕ → ℕ → Bool
has_bit bit flags = (flags / 2 ^ bit) % 2 == 1

-- `if test { feats.push(..) }`
abbrev pub push_if : Bool → List Feature → List Feature → List Feature
push_if test feats rest = if test then feats ++ rest else rest

abbrev pub feature_texts : (Feature → String) → List Feature → List String
feature_texts text [] = []
feature_texts text (f ∷ fs) = text f ∷ feature_texts text fs

-- `as_f64`
abbrev pub as_f64 : (p : Platform) → Value p.F64 → Option p.F64
as_f64 p (uint n) = some (p.f64_of_uint n)
as_f64 p (negative n) = some (p.f64_of_negative n)
as_f64 p (float x) = some x
as_f64 p _ = none

module _ {p : Platform} where
  -- An `EntityChange` with the mapped attributes of an event.
  abbrev pub change_of :
      EntityType
      → (String → Option (Fields p.F64) → Result (Fields p.F64))
      → EventData p
      → Result (EntityChange p)
  change_of t map_attributes e = do
    attributes ← map_attributes e.state e.attributes
    ok (record {
      device_id = none;
      entity_type = t;
      entity_id = e.entity_id;
      attributes = attributes;
    })
