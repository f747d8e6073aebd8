-- ===== src/Service/Light/Ranges.antt =====
-- The ranges of the data that a light command sends.
use integration_home_assista.Prelude.{
  ℕ, ◌+◌, ◌*◌, ◌/◌, ◌≤◌, ◌<◌, ◌≡◌, refl, false, Option, none, some, arith, leb, if◌then◌else◌,
  Option-cases, inl, inr, ap, sym, ◌∙◌, if_keep,
}
use integration_home_assista.Json.{Value, Fields, end, uint, get, put, get_then, as_u64, get-put}
use integration_home_assista.Errors.{ok, is_ok, bind-ok, ok-injective}
use integration_home_assista.Service.Light.{
  color_temp_percent_to_mired, light_brightness, light_color_temp, light_color, light_data,
  put_color, put_color,
}

-- With the range that the code uses, every percentage up to 100 gives a color temperature from 150 to
-- 500 mired, without overflow of 16 bits, and every higher value is refused.
pub color_temp_percent_to_mired_lem :
    (value : ℕ)
    → (value ≤ 100
        → (m : ℕ) × (color_temp_percent_to_mired value 150 500 ≡ ok m)
          × (m ≡ value * 350 / 100 + 150)
          × (150 ≤ m)
          × (m ≤ 500))
      × (100 < value → is_ok (color_temp_percent_to_mired value 150 500) ≡ false)
unfolding color_temp_percent_to_mired
color_temp_percent_to_mired_lem value = (
  λ h. (value * 350 / 100 + 150, ground arith, refl, omega arith, omega arith),
  λ h. ground arith,
)

-- A brightness, where the request has one up to 255.
abbrev allowed_brightness : Option ℕ → Option ℕ
allowed_brightness none = none
allowed_brightness (some b) = if leb b 255 then some b else none

module _ {F : Type 0} where
  abbrev read : Option (Value F) → Option ℕ
  read o = elim o [ none ↦ none | some v ↦ as_u64 v ]

  abbrev brightness_of : Fields F → Option ℕ
  brightness_of = get_then as_u64 "brightness"

  after_brightness :
      (params : Fields F)
      → brightness_of (light_brightness params end) ≡ allowed_brightness (brightness_of params)
  unfolding light_brightness get put
  after_brightness params = ground arith

  after_color_temp :
      (params data_ d : Fields F)
      → light_color_temp params data_ ≡ ok d
      → get "brightness" d ≡ get "brightness" data_
  unfolding light_color_temp
  after_color_temp params data_ d e =
      elim (Option-cases (get_then as_u64 "color_temperature" params)) [
        | inl q ↦ ap (get "brightness") (sym (ok-injective (rw (q, light_color_temp) at e)))
        | inr (pct, q) ↦
            (let (m, _, r) =
                bind-ok (color_temp_percent_to_mired pct 150 500) _
                  (rw (q, light_color_temp) at e) in
              ap (get "brightness") (sym (ok-injective r))
              ∙ get-put "color_temp" "brightness" (uint m) data_)
      ]

  after_put_color :
      (hue : ℕ) (o : Option ℕ) (data_ : Fields F)
      → get "brightness" (put_color hue o data_) ≡ get "brightness" data_
  after_put_color hue none data_ = refl
  after_put_color hue (some n) data_ =
      if_keep (λ x. get "brightness" x ≡ get "brightness" data_) (leb n 255)
        (get-put "hs_color" "brightness" _ data_) refl

  after_color :
      (params data_ : Fields F)
      → get "brightness" (light_color params data_) ≡ get "brightness" data_
  unfolding light_color
  after_color params data_ = elim (Option-cases (get_then as_u64 "hue" params)) [
    | inl q ↦ rw (q, light_color) refl
    | inr (hue, q) ↦
        rw (q, light_color)
          (if_keep (λ x. get "brightness" x ≡ get "brightness" data_) (leb hue 360)
            (after_put_color hue (get_then as_u64 "saturation" params) data_) refl)
  ]

  -- The data of a light command that is accepted has exactly the brightness of the request, if that
  -- is at most 255, and none otherwise, whatever colors it has as well.
  pub light_data_brightness :
      (params data_ : Fields F)
      → light_data (some params) ≡ ok data_
      → get_then as_u64 "brightness" data_
        ≡ allowed_brightness (get_then as_u64 "brightness" params)
  unfolding light_data
  light_data_brightness params data_ e =
      let (d, q, r) = bind-ok (light_color_temp params (light_brightness params end)) _ e in
      ap read (
        ap (get "brightness") (sym (ok-injective r))
        ∙ after_color params d
        ∙ after_color_temp params _ d q)
      ∙ after_brightness params
