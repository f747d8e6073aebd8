-- ===== src/Entity/Light.antt =====
-- src/client/entity/light.rs.
use Prim.Native.String
use integration_home_assista.Prelude.{
  ℕ, ◌-◌, ◌*◌, ◌/◌, ◌%◌, ◌^◌, String, Bool, true, false, Option, none, some, List, [], ◌∷◌, or_else,
  str_eq, decimal, ◌||◌, ltb, leb, if◌then◌else◌,
}
use integration_home_assista.Json.{
  Value, uint, Items, nil, cons, Fields, end, put, remove, get_then, as_str, as_u64, as_array,
}
use integration_home_assista.Color.{color_xy_to_hs, color_rgb_to_hsv}
use integration_home_assista.Platform.{Platform}
use integration_home_assista.Errors.{Result, ok, err, bad_request, ◌>>=◌}
use integration_home_assista.Api.{light}
use integration_home_assista.Entity.Interface.{Convert, EventConvert}
use integration_home_assista.Entity.Events.{convert_ha_onoff_state}
use integration_home_assista.Entity.Common.{
  EntityLib, Feature, toggle, dim, color, color_temperature, entity_name, push_if, feature_texts,
  as_f64, change_of,
}

abbrev u16 : ℕ → ℕ
u16 n = n % 2 ^ 16

-- A color temperature as it is limited to its range: each comparison is made on 16 bits.
abbrev limited_mired : ℕ → ℕ → ℕ → ℕ
limited_mired value min_mireds max_mireds =
    let raised = if ltb (u16 value) min_mireds then min_mireds else value in
    if ltb max_mireds (u16 raised) then max_mireds else raised

-- `color_temp_mired_to_percent`, on a `u64` and two `u16`.
unfoldable pub color_temp_mired_to_percent : ℕ → ℕ → ℕ → Result ℕ
color_temp_mired_to_percent value min_mireds max_mireds =
    if leb max_mireds min_mireds
    then err (
        bad_request (
          String.◌++◌ "Invalid min_mireds or max_mireds value! min_mireds=" (
            String.◌++◌ (decimal 5 min_mireds)
              (String.◌++◌ ", max_mireds=" (decimal 5 max_mireds)))))
    else ok (
        u16 ((u16 (limited_mired value min_mireds max_mireds) - min_mireds) * 100)
        / (max_mireds - min_mireds))

-- A result that says whether a color was found, with the attributes.
abbrev Extracted : Type 0 → Type 0
Extracted F = Result (Bool × Fields F)

abbrev put_hs : {F : Type 0} → ℕ → ℕ → Fields F → Fields F
put_hs hue saturation attributes =
    put "saturation" (uint saturation) (put "hue" (uint hue) attributes)

module _ {p : Platform} (lib : EntityLib p) where
  abbrev f64_of : Value p.F64 → p.F64
  f64_of v = or_else (as_f64 p v) lib.default_f64

  abbrev invalid_hs_range : ℕ → p.F32 → String
  invalid_hs_range hue saturation =
      String.◌++◌ "Invalid hs_color values ("
        (String.◌++◌ (decimal 5 hue) (String.◌++◌ ", " (String.◌++◌ (lib.f32_text saturation) ")")))

  -- The two values of `hs_color`.
  unfoldable pub hs_values : Items p.F64 → Fields p.F64 → Extracted p.F64
  hs_values (cons h (cons s nil)) attributes =
      let hue = lib.round_u16 (f64_of h) in
      let saturation = lib.round_f32 (f64_of s) in
      if ltb 360 hue || lib.above_hundred saturation
      then err (bad_request (invalid_hs_range hue saturation))
      else ok (true, put_hs hue (lib.saturation_u16 saturation) attributes)
  hs_values _ attributes =
      err (bad_request "Invalid hs_color value. Expected array with hue & saturation")

  -- `extract_hs_color`
  unfoldable pub extract_hs_color : Fields p.F64 → Fields p.F64 → Extracted p.F64
  unfolding hs_values
  extract_hs_color ha_attr attributes = elim (get_then as_array "hs_color" ha_attr) [
    | none ↦ ok (false, attributes)
    | some hs ↦ hs_values hs attributes
  ]

  unfoldable pub xy_values : Items p.F64 → Fields p.F64 → Extracted p.F64
  xy_values (cons x (cons y nil)) attributes =
      let hs =
        color_xy_to_hs lib.floats (lib.f32_of_f64 (f64_of x)) (lib.f32_of_f64 (f64_of y)) none in
      ok (true, put_hs (lib.hue_u16 hs.0) (lib.saturation_u16 hs.1) attributes)
  xy_values _ attributes = err (bad_request "Invalid xy_color value. Expected array with x & y")

  -- `extract_xy_color`
  unfoldable pub extract_xy_color : Fields p.F64 → Fields p.F64 → Extracted p.F64
  unfolding xy_values
  extract_xy_color ha_attr attributes = elim (get_then as_array "xy_color" ha_attr) [
    | none ↦ ok (false, attributes)
    | some xy ↦ xy_values xy attributes
  ]

  abbrev f32_of : Value p.F64 → p.F32
  f32_of v = lib.f32_of_uint (or_else (as_u64 v) 0)

  unfoldable pub rgb_values : Items p.F64 → Fields p.F64 → Extracted p.F64
  rgb_values (cons r (cons g (cons b nil))) attributes =
      let hsv = color_rgb_to_hsv lib.floats (f32_of r) (f32_of g) (f32_of b) in
      ok (true, put_hs (lib.hue_u16 hsv.0) (lib.saturation_u16 hsv.1) attributes)
  rgb_values _ attributes = err (bad_request "Invalid rgb_color value. Expected array with r,g,b")

  -- `extract_rgb_color`
  unfoldable pub extract_rgb_color : Fields p.F64 → Fields p.F64 → Extracted p.F64
  unfolding rgb_values
  extract_rgb_color ha_attr attributes = elim (get_then as_array "rgb_color" ha_attr) [
    | none ↦ ok (false, attributes)
    | some rgb ↦ rgb_values rgb attributes
  ]

  -- The hs color of the attributes, or else another color model.
  abbrev hs_or :
      (Fields p.F64 → Fields p.F64 → Extracted p.F64)
      → Fields p.F64
      → Fields p.F64
      → Result (Fields p.F64)
  hs_or extract ha_attr attributes = extract_hs_color ha_attr attributes >>= λ r.
      if r.0 then ok r.1 else (extract ha_attr r.1 >>= λ q. ok q.1)

  -- The color temperature in percent of the range of the light.
  unfoldable pub put_color_temp : Fields p.F64 → Fields p.F64 → Result (Fields p.F64)
  unfolding color_temp_mired_to_percent
  put_color_temp ha_attr attributes = elim (get_then as_u64 "color_temp" ha_attr) [
    | none ↦ ok attributes
    | some color_temp ↦ do
      percent ←
          color_temp_mired_to_percent color_temp
            (u16 (or_else (get_then as_u64 "min_mireds" ha_attr) 0))
            (u16 (or_else (get_then as_u64 "max_mireds" ha_attr) 0))
      ok (put "color_temperature" (uint percent) attributes)
  ]

  -- The color by the color mode; a mode that is not handled is only logged.
  unfoldable pub put_light_color :
      Option String → Fields p.F64 → Fields p.F64 → Result (Fields p.F64)
  unfolding put_color_temp extract_hs_color extract_xy_color extract_rgb_color
  put_light_color none ha_attr attributes = ok attributes
  put_light_color (some mode) ha_attr attributes =
      if str_eq mode "color_temp"
      then put_color_temp ha_attr attributes
      else if str_eq mode "hs"
      then (extract_hs_color ha_attr attributes >>= λ r. ok r.1)
      else if str_eq mode "xy"
      then hs_or extract_xy_color ha_attr attributes
      else if str_eq mode "rgb" || str_eq mode "rgbw" || str_eq mode "rgbww"
      then hs_or extract_rgb_color ha_attr attributes
      else ok attributes

  abbrev put_brightness : Fields p.F64 → Fields p.F64 → Fields p.F64
  put_brightness ha_attr attributes = elim (get_then as_u64 "brightness" ha_attr) [
    | none ↦ attributes
    | some n ↦ put "brightness" (uint n) attributes
  ]

  unfoldable pub light_attributes : Option (Fields p.F64) → Fields p.F64 → Result (Fields p.F64)
  unfolding put_light_color
  light_attributes none attributes = ok attributes
  light_attributes (some ha_attr) attributes =
      put_light_color (get_then as_str "color_mode" ha_attr) (remove "brightness" ha_attr)
        (put_brightness ha_attr attributes)

  -- `map_light_attributes`
  unfoldable pub map_light_attributes : String → Option (Fields p.F64) → Result (Fields p.F64)
  unfolding convert_ha_onoff_state light_attributes
  map_light_attributes state ha_attr = do
    value ← convert_ha_onoff_state state
    light_attributes ha_attr (put "state" value end)

  unfoldable pub light_event_to_entity_change : EventConvert p
  unfolding map_light_attributes
  light_event_to_entity_change = change_of light map_light_attributes

-- What the color modes of a light allow.
pub record LightModes : Type 0 where
  pub has_dim : Bool
  pub has_color : Bool
  pub has_color_temp : Bool

unfoldable pub note_mode : String → LightModes → LightModes
note_mode mode m =
    if str_eq mode "brightness"
    then record m { has_dim = true }
    else if str_eq mode "color_temp"
    then record m { has_dim = true; has_color_temp = true }
    else if str_eq mode "hs"
        || str_eq mode "rgb"
        || str_eq mode "rgbw"
        || str_eq mode "rgbww"
        || str_eq mode "xy"
    then record m { has_dim = true; has_color = true }
    else m

module _ {F : Type 0} where
  unfoldable pub note_modes : Items F → LightModes → LightModes
  unfolding note_mode
  note_modes nil m = m
  note_modes (cons v vs) m = note_modes vs (note_mode (or_else (as_str v) "") m)

  unfoldable pub light_features : Fields F → List Feature
  unfolding note_modes
  light_features ha_attr = elim (get_then as_array "supported_color_modes" ha_attr) [
    | none ↦ toggle ∷ []
    | some modes ↦
        let m =
          note_modes modes
            (record { has_dim = false; has_color = false; has_color_temp = false }) in
        toggle
        ∷ push_if m.has_dim (dim ∷ []) (
            push_if m.has_color (color ∷ []) (push_if m.has_color_temp (color_temperature ∷ []) []))
  ]

module _ {p : Platform} (lib : EntityLib p) where
  unfoldable pub convert_light_entity : Convert p
  unfolding map_light_attributes light_features
  convert_light_entity entity_id state ha_attr = do
    attributes ← map_light_attributes lib state (some ha_attr)
    ok (record {
      entity_id = entity_id;
      device_id = none;
      entity_type = light;
      device_class = none;
      name = entity_name entity_id ha_attr;
      features = some (feature_texts lib.feature_text (light_features ha_attr));
      area = none;
      options = none;
      attributes = some attributes;
    })
