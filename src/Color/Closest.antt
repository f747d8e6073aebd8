-- ===== src/Color/Closest.antt =====
-- src/util/color.rs: the point of a gamut that replaces a color outside of it.
use integration_home_assista.Prelude.{true, false, ◌≡◌, refl, arith, inl, inr, Bool-cases, ◌⊎◌}
use integration_home_assista.Color.{
  Floats, GamutType, XyPoint, closer, get_closest_point_to_line, get_closest_point_to_point,
  get_distance_between_two_points,
}

module _ {F : Type 0} (f : Floats F) where
  -- The order of the floats, also where one is no number.
  abbrev pub IsOrder : Type 0
  IsOrder =
      ((a b : F) → f.lt a b ≡ true → f.lt b a ≡ false)
      × ((a b c : F) → f.lt a b ≡ true → f.lt b c ≡ true → f.lt a c ≡ true)

  abbrev pub distance : XyPoint F → XyPoint F → F
  distance = get_distance_between_two_points f

  lt_irrefl : (d : F) → IsOrder → f.lt d d ≡ false
  lt_irrefl d (asym, trans) = elim (Bool-cases (f.lt d d)) [ inl e ↦ asym d d e | inr e ↦ e ]

  chosen :
      (p a b c : XyPoint F)
      → IsOrder
      → let q = (closer f (closer f (a, distance p a) (b, distance p b)) (c, distance p c)).0 in
        ((q ≡ a) ⊎ (q ≡ b) ⊎ (q ≡ c))
        × (f.lt (distance p a) (distance p q) ≡ false)
        × (f.lt (distance p b) (distance p q) ≡ false)
        × (f.lt (distance p c) (distance p q) ≡ false)
  chosen p a b c (asym, trans) =
      let same = λ (d : F). lt_irrefl d (asym, trans) in
      let d_a = distance p a in
      let d_b = distance p b in
      let d_c = distance p c in
      elim (Bool-cases (f.lt d_b d_a)) [
        | inl b_first ↦ elim (Bool-cases (f.lt d_c d_b)) [
          | inl c_first ↦
              rw (b_first, c_first)
                (
                  inr (inr refl),
                  asym d_c d_a (trans d_c d_b d_a c_first b_first),
                  asym d_c d_b c_first,
                  same d_c,
                )
          | inr b_kept ↦
              rw (b_first, b_kept) (inr (inl refl), asym d_b d_a b_first, same d_b, b_kept)
        ]
        | inr a_kept ↦ elim (Bool-cases (f.lt d_c d_a)) [
          | inl c_first ↦
              rw (a_kept, c_first)
                (inr (inr refl), asym d_c d_a c_first, ground (arith, trans d_b d_c d_a), same d_c)
          | inr still ↦ rw (a_kept, still) (inl refl, same d_a, a_kept, still)
        ]
      ]

  -- The chosen point is one of the closest points on the three edges of the gamut, and none of these
  -- is nearer.
  pub get_closest_point_to_point_lem :
      (p : XyPoint F) (gamut : GamutType F)
      → IsOrder
      → let p_ab = get_closest_point_to_line f gamut.red gamut.green p in
        let p_ac = get_closest_point_to_line f gamut.blue gamut.red p in
        let p_bc = get_closest_point_to_line f gamut.green gamut.blue p in
        let q = get_closest_point_to_point f p gamut in
        ((q ≡ p_ab) ⊎ (q ≡ p_ac) ⊎ (q ≡ p_bc))
        × (f.lt (distance p p_ab) (distance p q) ≡ false)
        × (f.lt (distance p p_ac) (distance p q) ≡ false)
        × (f.lt (distance p p_bc) (distance p q) ≡ false)
  unfolding get_closest_point_to_point
  get_closest_point_to_point_lem p gamut h =
      let p_ab = get_closest_point_to_line f gamut.red gamut.green p in
      let p_ac = get_closest_point_to_line f gamut.blue gamut.red p in
      let p_bc = get_closest_point_to_line f gamut.green gamut.blue p in chosen p p_ab p_ac p_bc h
