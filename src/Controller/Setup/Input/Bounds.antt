-- ===== src/Controller/Setup/Input/Bounds.antt =====
-- The bounds that the input values of a setup keep.
use mathlib.Core.Path.{subst}
use integration_home_assista.Prelude.{
  ℕ, ◌≤◌, true, some, ap, sym, ◌∙◌, String, ◌≡◌, Option, arith, Option-cases, inl, inr, or_else,
  Bool-cases, is_some, parse_uint_bound,
}
use integration_home_assista.Prelude.Dict.{Dict, lookup}
use integration_home_assista.Platform.{Platform}
use integration_home_assista.Settings.{HomeAssistantSettings, set_url, set_token}
use integration_home_assista.Errors.{ok, bind-ok, ok-injective}
use integration_home_assista.Controller.Url.{validate_url}
use integration_home_assista.Controller.Setup.Input.{
  parse_value, as_u8, as_u64_text, read_connection, read_heartbeat, read_reconnect, read_url,
  read_token, read_values,
}

-- The limits of the two timeouts in seconds.
abbrev pub IsTimeout : ℕ → Type 0
IsTimeout n = (3 ≤ n) × (n ≤ 255)

parsed_bound : (text : String) → or_else (as_u8 text) 0 ≤ 255
parsed_bound text = elim (Option-cases (as_u8 text)) [
  | inl q ↦ rw q (omega arith)
  | inr (v, q) ↦ rw q (parse_uint_bound 255 text v q)
]

u8_bound : (values : Dict String) (key : String) → or_else (parse_value as_u8 values key) 0 ≤ 255
unfolding parse_value
u8_bound values key = elim (Option-cases (lookup key values)) [
  | inl q ↦ rw (q, parse_value) (omega arith)
  | inr (text, q) ↦ rw (q, parse_value) (parsed_bound text)
]

module _ {p : Platform} where
  abbrev pub IsLimited : HomeAssistantSettings p → Type 0
  IsLimited cfg =
      IsTimeout cfg.connection_timeout
      × IsTimeout cfg.request_timeout
      × (1024 ≤ cfg.max_frame_size_kb)
      × (p.ge_one cfg.reconnect.backoff_factor ≡ true)

  read_connection-IsLimited :
      (values : Dict String) (cfg : HomeAssistantSettings p)
      → IsLimited cfg
      → IsLimited (read_connection values cfg)
  unfolding read_connection
  read_connection-IsLimited values cfg h =
      ground (arith, u8_bound values "connection_timeout", u8_bound values "request_timeout")

  read_heartbeat-IsLimited :
      (values : Dict String) (cfg : HomeAssistantSettings p)
      → IsLimited cfg
      → IsLimited (read_heartbeat values cfg)
  unfolding read_heartbeat
  read_heartbeat-IsLimited values cfg h = h

  read_reconnect-IsLimited :
      (values : Dict String) (cfg : HomeAssistantSettings p)
      → IsLimited cfg
      → IsLimited (read_reconnect values cfg)
  unfolding read_reconnect
  read_reconnect-IsLimited values cfg h = ground arith

  read_url-IsLimited :
      (values : Dict String) (cfg d : HomeAssistantSettings p)
      → read_url values cfg ≡ ok d
      → IsLimited cfg
      → IsLimited d
  unfolding read_url set_url
  read_url-IsLimited values cfg d e h = elim (Bool-cases (is_some (lookup "url" values))) [
    | inr q ↦ subst IsLimited (ok-injective (rw (q, read_url) at e)) h
    | inl q ↦
        (let (u, _, r) = bind-ok (validate_url p (lookup "url" values)) _ (rw (q, read_url) at e) in
          subst IsLimited (ok-injective r) h)
  ]

  read_token-IsLimited :
      (token_file : String → Option String) (values : Dict String) (cfg d : HomeAssistantSettings p)
      → read_token token_file values cfg ≡ ok d
      → IsLimited cfg
      → IsLimited d
  unfolding read_token set_token
  read_token-IsLimited token_file values cfg d e h = ground arith

  connection_given :
      (values : Dict String) (cfg : HomeAssistantSettings p) (n : ℕ)
      → let d = read_reconnect values (read_heartbeat values (read_connection values cfg)) in
        (parse_value as_u8 values "connection_timeout" ≡ some n → 3 ≤ n → d.connection_timeout ≡ n)
        × (parse_value as_u8 values "request_timeout" ≡ some n → 3 ≤ n → d.request_timeout ≡ n)
        × (parse_value as_u64_text values "max_frame_size_kb" ≡ some n
            → 1024 ≤ n
            → d.max_frame_size_kb ≡ n)
  unfolding read_reconnect read_heartbeat read_connection
  connection_given values cfg n = (λ q h. ground arith, λ q h. ground arith, λ q h. ground arith)

  -- Whatever the user enters in the setup: where the values are accepted, both timeouts are still
  -- between 3 and 255 seconds, the frame size is at least 1024 KB and the back-off factor at least
  -- one, if they were before. The upper limits that the page names are not kept: a timeout of at least
  -- 3 that fits into eight bits, and a frame size of at least 1024, are taken as they are, however
  -- large.
  pub read_values-IsLimited :
      (token_file : String → Option String) (values : Dict String) (cfg d : HomeAssistantSettings p)
      → IsLimited cfg
      → read_values token_file values cfg ≡ ok d
      → IsLimited d
        × ((n : ℕ)
            → (parse_value as_u8 values "connection_timeout" ≡ some n
                → 3 ≤ n
                → d.connection_timeout ≡ n)
              × (parse_value as_u8 values "request_timeout" ≡ some n
                  → 3 ≤ n
                  → d.request_timeout ≡ n)
              × (parse_value as_u64_text values "max_frame_size_kb" ≡ some n
                  → 1024 ≤ n
                  → d.max_frame_size_kb ≡ n))
  unfolding read_values
  read_values-IsLimited token_file values cfg d h e =
      let (cfg₁, e₁, r₁) = bind-ok (read_url values cfg) _ e in
      let (cfg₂, e₂, r₂) = bind-ok (read_token token_file values cfg₁) _ r₁ in
      let h₂ =
        read_token-IsLimited token_file values cfg₁ cfg₂ e₂
          (read_url-IsLimited values cfg cfg₁ e₁ h) in
      let q = ok-injective r₂ in
      (
        subst IsLimited q (
            read_reconnect-IsLimited values _ (
              read_heartbeat-IsLimited values (read_connection values cfg₂)
                (read_connection-IsLimited values cfg₂ h₂))),
        λ n.
            let (a, b, c) = connection_given values cfg₂ n in
            (
              λ x y. ap (λ s. s.connection_timeout) (sym q) ∙ a x y,
              λ x y. ap (λ s. s.request_timeout) (sym q) ∙ b x y,
              λ x y. ap (λ s. s.max_frame_size_kb) (sym q) ∙ c x y,
            ),
      )
