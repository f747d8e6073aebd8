-- ===== src/Color.antt =====
-- src/util/color.rs: the conversions of colors. The arithmetic of `f32` is a parameter, with what the code
-- relies on as named laws.
pub mod Bounds
pub mod Closest
use integration_home_assista.Prelude.{
  ℕ, zero, Bool, true, false, Option, none, some, ◌&&◌, not, if◌then◌else◌, ◌≡◌, ◌≤◌,
}

-- The operations of `f32`. `of_decimal n d` is the literal with the digits `n`, the last `d` of them behind
-- the point; `to_u16` is `as u16`.
pub record Floats (F : Type 0) : Type 0 where
  pub of_decimal : ℕ → ℕ → F
  pub of_u16 : ℕ → F
  pub to_u16 : F → ℕ
  pub add : F → F → F
  pub sub : F → F → F
  pub mul : F → F → F
  pub div : F → F → F
  pub neg : F → F
  pub max : F → F → F
  pub min : F → F → F
  pub powf : F → F → F
  pub rem_euclid : F → F → F
  pub sqrt : F → F
  pub round_float : F → F
  pub clamp : F → F → F → F
  pub lt : F → F → Bool
  pub le : F → F → Bool
  pub eq : F → F → Bool

pub record XyPoint (F : Type 0) : Type 0 where
  pub x : F
  pub y : F

pub record GamutType (F : Type 0) : Type 0 where
  pub red : XyPoint F
  pub green : XyPoint F
  pub blue : XyPoint F

module _ {F : Type 0} (f : Floats F) where
  open f use {of_decimal, add, sub, mul, div, neg, max, min, lt, le, eq}

  abbrev point : F → F → XyPoint F
  point x y = record { x = x; y = y }

  abbrev pub number : ℕ → F
  number n = of_decimal n 0

  unfoldable pub cross_product : XyPoint F → XyPoint F → F
  cross_product p1 p2 = sub (mul p1.x p2.y) (mul p1.y p2.x)

  unfoldable pub get_distance_between_two_points : XyPoint F → XyPoint F → F
  get_distance_between_two_points one two =
      let dx = sub one.x two.x in let dy = sub one.y two.y in f.sqrt (add (mul dx dx) (mul dy dy))

  unfoldable pub get_closest_point_to_line : XyPoint F → XyPoint F → XyPoint F → XyPoint F
  get_closest_point_to_line a b p =
      let ap = point (sub p.x a.x) (sub p.y a.y) in
      let ab = point (sub b.x a.x) (sub b.y a.y) in
      let ab2 = add (mul ab.x ab.x) (mul ab.y ab.y) in
      let ap_ab = add (mul ap.x ab.x) (mul ap.y ab.y) in
      let t = f.clamp (div ap_ab ab2) (number 0) (number 1) in
      point (add a.x (mul ab.x t)) (add a.y (mul ab.y t))

  -- The closest point with its distance, which a second one replaces if it is closer.
  abbrev pub closer : XyPoint F × F → XyPoint F × F → XyPoint F × F
  closer lowest (p, d) = if lt d lowest.1 then (p, d) else lowest

  unfoldable pub get_closest_point_to_point : XyPoint F → GamutType F → XyPoint F
  get_closest_point_to_point xy_point gamut =
      let p_ab = get_closest_point_to_line gamut.red gamut.green xy_point in
      let p_ac = get_closest_point_to_line gamut.blue gamut.red xy_point in
      let p_bc = get_closest_point_to_line gamut.green gamut.blue xy_point in
      let d_ab = get_distance_between_two_points xy_point p_ab in
      let d_ac = get_distance_between_two_points xy_point p_ac in
      let d_bc = get_distance_between_two_points xy_point p_bc in
      (closer (closer (p_ab, d_ab) (p_ac, d_ac)) (p_bc, d_bc)).0

  unfoldable pub check_point_in_lamps_reach : XyPoint F → GamutType F → Bool
  unfolding cross_product
  check_point_in_lamps_reach p gamut =
      let v1 = point (sub gamut.green.x gamut.red.x) (sub gamut.green.y gamut.red.y) in
      let v2 = point (sub gamut.blue.x gamut.red.x) (sub gamut.blue.y gamut.red.y) in
      let q = point (sub p.x gamut.red.x) (sub p.y gamut.red.y) in
      let s = div (cross_product q v2) (cross_product v1 v2) in
      let t = div (cross_product v1 q) (cross_product v1 v2) in
      le (number 0) s && le (number 0) t && le (add s t) (number 1)

  -- The point that a lamp with the gamut can show.
  unfoldable pub within_reach : XyPoint F → Option (GamutType F) → XyPoint F
  within_reach p none = p
  within_reach p (some gamut) =
      if not (check_point_in_lamps_reach p gamut) then get_closest_point_to_point p gamut else p

  unfoldable pub reverse_gamma : F → F
  reverse_gamma x =
      if le x (of_decimal 31308 7)
      then mul (of_decimal 1292 2) x
      else sub
          (mul (add (number 1) (of_decimal 55 3)) (f.powf x (div (number 1) (of_decimal 24 1))))
          (of_decimal 55 3)

  -- A component that is negative or no number becomes zero.
  abbrev pub positive : F → F
  positive x = max x (number 0)

  -- The components as bytes: the largest is brought down to one.
  unfoldable pub weighted : F → F → F → ℕ × ℕ × ℕ
  weighted r g b =
      let max_component = max (max r g) b in
      let byte = λ (x : F). f.to_u16 (mul x (number 255)) in
      if lt (number 1) max_component
      then (byte (div r max_component), byte (div g max_component), byte (div b max_component))
      else (byte r, byte g, byte b)

  -- From the point on, with a brightness that is not zero.
  unfoldable pub xyz_to_rgb : F → F → F → ℕ × ℕ × ℕ
  xyz_to_rgb v_x v_y₀ y =
      let v_y = if eq v_y₀ (number 0) then add v_y₀ (of_decimal 1 11) else v_y₀ in
      let x = mul (div y v_y) v_x in
      let z = mul (div y v_y) (sub (sub (number 1) v_x) v_y) in
      let r =
        sub (sub (mul x (of_decimal 1656492 6)) (mul y (of_decimal 354851 6)))
          (mul z (of_decimal 255038 6)) in
      let g =
        add (add (mul (neg x) (of_decimal 707196 6)) (mul y (of_decimal 1655397 6)))
          (mul z (of_decimal 36152 6)) in
      let b =
        add (sub (mul x (of_decimal 51713 6)) (mul y (of_decimal 121364 6)))
          (mul z (of_decimal 101153 5)) in
      weighted (positive (reverse_gamma r)) (positive (reverse_gamma g))
        (positive (reverse_gamma b))

  unfoldable pub color_xy_brightness_to_rgb : F → F → ℕ → Option (GamutType F) → ℕ × ℕ × ℕ
  color_xy_brightness_to_rgb v_x v_y ibrightness gamut =
      let p = within_reach (point v_x v_y) gamut in
      let brightness = div (f.of_u16 ibrightness) (number 255) in
      if eq brightness (number 0) then (0, 0, 0) else xyz_to_rgb p.x p.y brightness

  unfoldable pub color_xy_to_rgb : F → F → Option (GamutType F) → ℕ × ℕ × ℕ
  color_xy_to_rgb x y gamut = color_xy_brightness_to_rgb x y 255 gamut

  unfoldable pub rgb_to_hsv : F → F → F → F × F × F
  rgb_to_hsv r g b =
      let maxc = max (max r g) b in
      let minc = min (min r g) b in
      let rangec = sub maxc minc in
      let rc = div (sub maxc r) rangec in
      let gc = div (sub maxc g) rangec in
      let bc = div (sub maxc b) rangec in
      let h =
        if eq r maxc
        then sub bc gc
        else if eq g maxc
        then sub (add (number 2) rc) bc
        else sub (add (number 4) gc) rc in
      if eq minc maxc
      then (number 0, number 0, maxc)
      else (f.rem_euclid (div h (number 6)) (number 1), div rangec maxc, maxc)

  -- `round` to three decimals.
  unfoldable pub round : F → F
  round x = div (f.round_float (mul x (number 1000))) (number 1000)

  unfoldable pub color_rgb_to_hsv : F → F → F → F × F × F
  color_rgb_to_hsv r g b =
      let (h, s, v) = rgb_to_hsv (div r (number 255)) (div g (number 255)) (div b (number 255)) in
      (round (mul h (number 360)), round (mul s (number 100)), round (mul v (number 100)))

  unfoldable pub color_xy_to_hs : F → F → Option (GamutType F) → F × F
  color_xy_to_hs x y gamut =
      let (r, g, b) = color_xy_to_rgb x y gamut in
      let (h, s, v) = color_rgb_to_hsv (f.of_u16 r) (f.of_u16 g) (f.of_u16 b) in (h, s)
