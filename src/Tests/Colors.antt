-- ===== src/Tests/Colors.antt =====
-- The colors on floats that are natural numbers.
use integration_home_assista.Prelude.{
  ℕ, ◌+◌, ◌-◌, ◌*◌, ◌/◌, ◌%◌, ◌^◌, false, ltb, leb, if◌then◌else◌, ◌≡◌, refl, arith, some, ◌==◌,
}
use integration_home_assista.Color.{
  Floats, XyPoint, GamutType, get_closest_point_to_line, get_closest_point_to_point,
  color_xy_brightness_to_rgb,
}
use integration_home_assista.Color.Bounds.{IsIeee, AreBytes, color_xy_brightness_to_rgb-AreBytes}
use integration_home_assista.Color.Closest.{IsOrder, distance, get_closest_point_to_point_lem}

abbrev pub floats : Floats ℕ
floats = record {
  of_decimal = λ n d. n / 10 ^ d;
  of_u16 = λ n. n;
  to_u16 = λ n. if ltb 65535 n then 65535 else n;
  add = λ a b. a + b;
  sub = λ a b. a - b;
  mul = λ a b. a * b;
  div = λ a b. if a == b then 1 else if ltb a b then 0 else a / b;
  neg = λ a. 0;
  max = λ a b. if leb a b then b else a;
  min = λ a b. if leb a b then a else b;
  powf = λ a b. a;
  rem_euclid = λ a b. a % b;
  sqrt = λ a. a;
  round_float = λ a. a;
  clamp = λ a lo hi. if ltb a lo then lo else if ltb hi a then hi else a;
  lt = ltb;
  le = leb;
  eq = λ a b. a == b;
}

floats-IsIeee : IsIeee floats
floats-IsIeee = record {
  zero_number = refl;
  max_number_left = λ a b h. ground arith;
  max_number_right = λ a b h. ground arith;
  le_max_left = λ a b h. ground arith;
  le_max_right = λ a b h. ground arith;
  le_trans = λ a b c h k. ground arith;
  not_above = λ a b c h k. ground arith;
  div_not_above = λ a b h k. ground arith;
  byte_saturates = λ a h. ground arith;
}

-- A point outside of a gamut is replaced, at the full brightness.
abbrev triangle : GamutType ℕ
triangle = record {
  red = record { x = 7; y = 3 };
  green = record { x = 2; y = 7 };
  blue = record { x = 1; y = 1 };
}

color_xy_brightness_to_rgb-AreBytes_example :
    AreBytes floats (color_xy_brightness_to_rgb floats 9 9 255 (some triangle))
color_xy_brightness_to_rgb-AreBytes_example =
    color_xy_brightness_to_rgb-AreBytes floats floats-IsIeee 9 9 255 (some triangle)

floats-IsOrder : IsOrder floats
floats-IsOrder = (λ a b h. ground arith, λ a b c h k. ground arith)

abbrev outside : XyPoint ℕ
outside = record { x = 9; y = 9 }

get_closest_point_to_point_lem_example :
    ltb
      (distance floats outside
        (get_closest_point_to_line floats triangle.red triangle.green outside))
      (distance floats outside (get_closest_point_to_point floats outside triangle))
    ≡ false
get_closest_point_to_point_lem_example =
    (get_closest_point_to_point_lem floats outside triangle floats-IsOrder).1
