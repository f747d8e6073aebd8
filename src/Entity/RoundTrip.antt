-- ===== src/Entity/RoundTrip.antt =====
-- The values that commands (src/client/service) send and states (src/client/entity) bring back.
use integration_home_assista.Prelude.{
  Bool-cases, str_eq, if◌then◌else◌, Option, ◌⊎◌, inl, inr, ◌/◌, ◌%◌, ℕ, ◌+◌, ◌-◌, ◌*◌, ◌≤◌, ◌<◌,
  ◌^◌, ◌≡◌, ◌≢◌, refl, String, some, arith, eq_iff, ltb,
}
use native.Mathlib.Nat.{div-lt_iff_lt-mul, div-eq_of_eq-mul_left}
use integration_home_assista.Errors.{ok}
use integration_home_assista.Service.Climate.{hvac_mode_of}
use integration_home_assista.Service.Light.{color_temp_percent_to_mired}
use integration_home_assista.Entity.Climate.{climate_state}
use integration_home_assista.Entity.Light.{color_temp_mired_to_percent}

-- A choice by a text: the first answer, or one of the rest.
choice :
    (s t : String) {a b : String} {rest : Option String}
    → (if str_eq s t then some a else rest) ≡ some b
    → ((s ≡ t) × (a ≡ b)) ⊎ (rest ≡ some b)
choice s t h = elim (Bool-cases (str_eq s t)) [
  | inl q ↦ inl ((eq_iff s t).0 q, ground arith)
  | inr q ↦ inr (ground arith)
]

mode_back : (mode state : String) → hvac_mode_of mode ≡ some state → climate_state state ≡ some mode
unfolding hvac_mode_of climate_state
mode_back mode state h0 = elim (choice mode "OFF" h0) [
  | inl (p, q) ↦ rw (p, ← q) refl
  | inr h1 ↦ elim (choice mode "HEAT" h1) [
    | inl (p, q) ↦ rw (p, ← q) refl
    | inr h2 ↦ elim (choice mode "COOL" h2) [
      | inl (p, q) ↦ rw (p, ← q) refl
      | inr h3 ↦ elim (choice mode "HEAT_COOL" h3) [
        | inl (p, q) ↦ rw (p, ← q) refl
        | inr h4 ↦ elim (choice mode "AUTO" h4) [
          | inl (p, q) ↦ rw (p, ← q) refl
          | inr h5 ↦ elim (choice mode "FAN" h5) [ inl (p, q) ↦ rw (p, ← q) refl | inr h6 ↦ cc ]
        ]
      ]
    ]
  ]
]

state_back :
    (mode state : String)
    → climate_state state ≡ some mode
    → state ≢ "unavailable"
    → state ≢ "unknown"
    → hvac_mode_of mode ≡ some state
unfolding hvac_mode_of climate_state
state_back mode state h0 known named = elim (choice state "unavailable" h0) [
  | inl (p, q) ↦ absurd (known p)
  | inr h1 ↦ elim (choice state "unknown" h1) [
    | inl (p, q) ↦ absurd (named p)
    | inr h2 ↦ elim (choice state "off" h2) [
      | inl (p, q) ↦ rw (p, ← q) refl
      | inr h3 ↦ elim (choice state "heat" h3) [
        | inl (p, q) ↦ rw (p, ← q) refl
        | inr h4 ↦ elim (choice state "cool" h4) [
          | inl (p, q) ↦ rw (p, ← q) refl
          | inr h5 ↦ elim (choice state "heat_cool" h5) [
            | inl (p, q) ↦ rw (p, ← q) refl
            | inr h6 ↦ elim (choice state "auto" h6) [
              | inl (p, q) ↦ rw (p, ← q) refl
              | inr h7 ↦ elim (choice state "fan_only" h7) [
                | inl (p, q) ↦ rw (p, ← q) refl
                | inr h8 ↦ cc
              ]
            ]
          ]
        ]
      ]
    ]
  ]
]

-- The HVAC modes that a command sends are exactly the modes of the states, apart from the general states
-- unavailable and unknown: each comes back as the mode of the command, and each state as the command
-- that sets it.
pub hvac_mode_round_trip :
    (mode state : String)
    → (hvac_mode_of mode ≡ some state → climate_state state ≡ some mode)
      × (climate_state state ≡ some mode
          → state ≢ "unavailable"
          → state ≢ "unknown"
          → hvac_mode_of mode ≡ some state)
hvac_mode_round_trip mode state = (mode_back mode state, state_back mode state)

quotient-lt : (n k r : ℕ) → 0 < r → n < k * r → n / r < k
quotient-lt n k r h = (div-lt_iff_lt-mul h).1

-- The percentage of a limited color temperature.
shown_percent :
    (min_mireds max_mireds limited value percent : ℕ)
    → (min_mireds < max_mireds) × (min_mireds ≤ limited) × (limited ≤ max_mireds)
    → (max_mireds ≤ value → limited ≡ max_mireds)
    → percent ≡ (limited - min_mireds) * 100 % 2 ^ 16 / (max_mireds - min_mireds)
    → (max_mireds ≤ min_mireds + 655 → percent ≤ 100)
      × (max_mireds ≤ min_mireds + 655 → max_mireds ≤ value → percent ≡ 100)
      × (min_mireds + 655 < max_mireds → max_mireds ≤ value → percent < 100)
shown_percent min_mireds max_mireds limited value percent within full shown =
    let range = max_mireds - min_mireds in
    let product = (limited - min_mireds) * 100 % 2 ^ 16 in
    let wide : 0 < range = omega (arith, within) in
    (
      λ narrow.
          let below : product / range < 101 =
            quotient-lt product 101 range wide (omega (arith, within)) in
          omega (arith, below, shown),
      λ narrow top.
          let whole : product ≡ 100 * range = omega (arith, within, full top) in
          let exact : product / range ≡ 100 = div-eq_of_eq-mul_left wide whole in
          omega (arith, exact, shown),
      λ large top.
          let below : product / range < 100 =
            quotient-lt product 100 range wide (omega (arith, within, full top)) in
          omega (arith, below, shown),
    )

-- The maximum of a range of at most 655 mireds is 100 percent, and every color temperature from 0 to
-- 100; the product of a larger range does not fit 16 bits, and its maximum is shown as less than 100.
pub color_temp_mired_to_percent_lem :
    (value min_mireds max_mireds percent : ℕ)
    → max_mireds < 2 ^ 16
    → value < 2 ^ 16
    → color_temp_mired_to_percent value min_mireds max_mireds ≡ ok percent
    → (max_mireds ≤ min_mireds + 655 → percent ≤ 100)
      × (max_mireds ≤ min_mireds + 655 → max_mireds ≤ value → percent ≡ 100)
      × (min_mireds + 655 < max_mireds → max_mireds ≤ value → percent < 100)
unfolding color_temp_mired_to_percent
color_temp_mired_to_percent_lem value min_mireds max_mireds percent fits short e =
    let limited =
      if ltb value min_mireds
      then min_mireds
      else if ltb max_mireds value
      then max_mireds
      else value in
    let within : (min_mireds < max_mireds) × (min_mireds ≤ limited) × (limited ≤ max_mireds) =
      ground arith in
    let full : max_mireds ≤ value → limited ≡ max_mireds = ground arith in
    let shown : percent ≡ (limited - min_mireds) * 100 % 2 ^ 16 / (max_mireds - min_mireds) =
      ground arith in
    shown_percent min_mireds max_mireds limited value percent within full shown

-- A color temperature that a command sends in percent comes back as the same percentage or as one less,
-- on a light with the range of 150 to 500 mireds.
pub color_temp_round_trip :
    (percent mireds : ℕ)
    → color_temp_percent_to_mired percent 150 500 ≡ ok mireds
    → (back : ℕ) × (color_temp_mired_to_percent mireds 150 500 ≡ ok back)
      × (back ≤ percent)
      × (percent ≤ back + 1)
unfolding color_temp_percent_to_mired color_temp_mired_to_percent
color_temp_round_trip percent mireds e =
    let sent : (percent ≤ 100) × (mireds ≡ percent * 350 / 100 + 150) = ground arith in
    ((mireds - 150) * 100 / 350, ground arith, omega arith, omega arith)
