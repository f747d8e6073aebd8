-- ===== src/Color/Bounds.antt =====
-- src/util/color.rs: the range of the converted colors.
use integration_home_assista.Prelude.{ℕ, ◌≤◌, true, false, Option, ◌≡◌, arith, inl, inr, Bool-cases}
use integration_home_assista.Color.{
  Floats, GamutType, positive, weighted, number, xyz_to_rgb, within_reach,
  color_xy_brightness_to_rgb,
}

module _ {F : Type 0} (f : Floats F) where
  abbrev IsNumber : F → Type 0
  IsNumber x = f.le x x ≡ true

  -- What IEEE 754 and Rust document: `max` ignores what is no number and is not below a number; a
  -- number divided by a larger one that is above one does not become greater than one; and `as u16`
  -- saturates, with zero for what is no number.
  pub record IsIeee : Type 0 where
    pub zero_number : IsNumber (number f 0)
    pub max_number_left : (a b : F) → IsNumber a → IsNumber (f.max a b)
    pub max_number_right : (a b : F) → IsNumber b → IsNumber (f.max a b)
    pub le_max_left : (a b : F) → IsNumber a → f.le a (f.max a b) ≡ true
    pub le_max_right : (a b : F) → IsNumber b → f.le b (f.max a b) ≡ true
    pub le_trans : (a b c : F) → f.le a b ≡ true → f.le b c ≡ true → f.le a c ≡ true
    pub not_above : (a b c : F) → f.le a b ≡ true → f.lt c b ≡ false → f.lt c a ≡ false
    pub div_not_above :
        (a b : F)
        → f.le a b ≡ true
        → f.lt (number f 1) b ≡ true
        → f.lt (number f 1) (f.div a b) ≡ false
    pub byte_saturates :
        (a : F) → f.lt (number f 1) a ≡ false → f.to_u16 (f.mul a (number f 255)) ≤ 255

  abbrev pub AreBytes : ℕ × ℕ × ℕ → Type 0
  AreBytes c = (c.0 ≤ 255) × (c.1 ≤ 255) × (c.2 ≤ 255)

  module _ (ieee : IsIeee) where
    open ieee use {
      zero_number, max_number_left, max_number_right, le_max_left, le_max_right, le_trans,
      not_above, div_not_above, byte_saturates,
    }

    positive-IsNumber : (x : F) → IsNumber (positive f x)
    positive-IsNumber x = max_number_right x (number f 0) zero_number

    -- A component that is a number and not above the largest one.
    byte-le :
        (x m : F)
        → f.le x m ≡ true
        → (f.lt (number f 1) m ≡ true → f.to_u16 (f.mul (f.div x m) (number f 255)) ≤ 255)
          × (f.lt (number f 1) m ≡ false → f.to_u16 (f.mul x (number f 255)) ≤ 255)
    byte-le x m h = (
      λ e. byte_saturates (f.div x m) (div_not_above x m h e),
      λ e. byte_saturates x (not_above x m (number f 1) h e),
    )

    weighted-AreBytes :
        (r g b : F) → IsNumber r → IsNumber g → IsNumber b → AreBytes (weighted f r g b)
    unfolding weighted
    weighted-AreBytes r g b hr hg hb =
        let m = f.max (f.max r g) b in
        let rg = max_number_left r g hr in
        let top = le_max_left (f.max r g) b rg in
        let (r₁, r₂) = byte-le r m (le_trans r (f.max r g) m (le_max_left r g hr) top) in
        let (g₁, g₂) = byte-le g m (le_trans g (f.max r g) m (le_max_right r g hg) top) in
        let (b₁, b₂) = byte-le b m (le_max_right (f.max r g) b hb) in
        elim (Bool-cases (f.lt (number f 1) m)) [
          | inl e ↦ rw (e, weighted) (r₁ e, g₁ e, b₁ e)
          | inr e ↦ rw (e, weighted) (r₂ e, g₂ e, b₂ e)
        ]

    xyz_to_rgb-AreBytes : (x y brightness : F) → AreBytes (xyz_to_rgb f x y brightness)
    unfolding xyz_to_rgb
    xyz_to_rgb-AreBytes x y brightness =
        weighted-AreBytes _ _ _ (positive-IsNumber _) (positive-IsNumber _) (positive-IsNumber _)

    -- Where the floats behave as IEEE 754 and Rust document, each component of a converted color is at
    -- most 255, for every point (no number included), every brightness and every gamut.
    pub color_xy_brightness_to_rgb-AreBytes :
        (v_x v_y : F) (ibrightness : ℕ) (gamut : Option (GamutType F))
        → AreBytes (color_xy_brightness_to_rgb f v_x v_y ibrightness gamut)
    unfolding color_xy_brightness_to_rgb
    color_xy_brightness_to_rgb-AreBytes v_x v_y ibrightness gamut =
        let p = within_reach f (record { x = v_x; y = v_y }) gamut in
        let brightness = f.div (f.of_u16 ibrightness) (number f 255) in
        elim (Bool-cases (f.eq brightness (number f 0))) [
          | inl e ↦ rw (e, color_xy_brightness_to_rgb) (omega arith, omega arith, omega arith)
          | inr e ↦ rw (e, color_xy_brightness_to_rgb) (xyz_to_rgb-AreBytes p.x p.y brightness)
        ]
