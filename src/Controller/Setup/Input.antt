-- ===== src/Controller/Setup/Input.antt =====
-- The input values of the setup pages: the body of `Handler<SetDriverUserDataMsg>` in
-- src/controller/handler/setup.rs, from the current settings to the new ones.
pub mod Bounds
pub mod Token
pub mod Restart
use integration_home_assista.Prelude.{
  ℕ, String, Bool, true, false, Option, none, some, leb, not, ◌&&◌, if◌then◌else◌, is_empty,
  is_some, parse_uint, parse_bool,
}
use integration_home_assista.Prelude.Dict.{Dict, lookup}
use integration_home_assista.Platform.{Platform}
use integration_home_assista.Settings.{HomeAssistantSettings, get_token, set_url, set_token}
use integration_home_assista.Errors.{Result, ok, err, ◌>>=◌, bad_request}
use integration_home_assista.Controller.Url.{validate_url}

-- `parse_value::<T>(map, key)`, with `T::from_str` given.
unfoldable pub parse_value : {T : Type 0} → (String → Option T) → Dict String → String → Option T
parse_value from_str values key = elim (lookup key values) [ none ↦ none | some v ↦ from_str v ]

-- `if let Some(value) = … { … }`
abbrev with_value : {T C : Type 0} → Option T → (T → C → C) → C → C
with_value none f cfg = cfg
with_value (some v) f cfg = f v cfg

abbrev as_u8 : String → Option ℕ
as_u8 = parse_uint 255

abbrev as_u32 : String → Option ℕ
as_u32 = parse_uint 4294967295

-- `u64`, and `usize` on a 64-bit target.
abbrev pub as_u64_text : String → Option ℕ
as_u64_text = parse_uint 18446744073709551615

module _ {p : Platform} where
  -- The fields of the connection.
  unfoldable pub read_connection : Dict String → HomeAssistantSettings p → HomeAssistantSettings p
  read_connection values cfg₀ =
      let cfg₁ =
        with_value (parse_value as_u8 values "connection_timeout")
          (λ v c. if leb 3 v then record c { connection_timeout = v } else c) cfg₀ in
      let cfg₂ =
        with_value (parse_value as_u8 values "request_timeout")
          (λ v c. if leb 3 v then record c { request_timeout = v } else c) cfg₁ in
      let cfg₃ =
        with_value (parse_value parse_bool values "disconnect_in_standby")
          (λ v c. record c { disconnect_in_standby = v }) cfg₂ in
      with_value (parse_value as_u64_text values "max_frame_size_kb")
        (λ v c. if leb 1024 v then record c { max_frame_size_kb = v } else c) cfg₃

  -- The fields of the heartbeat.
  unfoldable pub read_heartbeat : Dict String → HomeAssistantSettings p → HomeAssistantSettings p
  read_heartbeat values cfg₀ =
      let h₀ = cfg₀.heartbeat in
      let h₁ =
        with_value (parse_value as_u64_text values "heartbeat_interval")
          (λ v h. record h { interval = v }) h₀ in
      let h₂ =
        with_value (parse_value as_u64_text values "heartbeat_timeout")
          (λ v h. record h { timeout = v }) h₁ in
      record cfg₀ {
        heartbeat =
            with_value (parse_value parse_bool values "ping_frames")
              (λ v h. record h { ping_frames = v }) h₂;
      }

  -- The fields of the reconnection.
  unfoldable pub read_reconnect : Dict String → HomeAssistantSettings p → HomeAssistantSettings p
  read_reconnect values cfg₀ =
      let r₀ = cfg₀.reconnect in
      let r₁ =
        with_value (parse_value as_u32 values "reconnect.attempts")
          (λ v r. record r { attempts = v }) r₀ in
      let r₂ =
        with_value (parse_value as_u64_text values "reconnect.duration_ms")
          (λ v r. record r { duration = v }) r₁ in
      let r₃ =
        with_value (parse_value as_u64_text values "reconnect.duration_max_ms")
          (λ v r. record r { duration_max = v }) r₂ in
      record cfg₀ {
        reconnect =
            with_value (parse_value p.f32_from_str values "reconnect.backoff_factor")
              (λ v r. if p.ge_one v then record r { backoff_factor = v } else r) r₃;
      }

  unfoldable pub read_url : Dict String → HomeAssistantSettings p → Result (HomeAssistantSettings p)
  read_url values cfg =
      if is_some (lookup "url" values)
      then (do url ← validate_url p (lookup "url" values); ok (set_url url cfg))
      else ok cfg

  -- An empty token keeps the one that is configured, if there is one.
  unfoldable pub read_token :
      (String → Option String)
      → Dict String
      → HomeAssistantSettings p
      → Result (HomeAssistantSettings p)
  read_token token_file values cfg = elim (lookup "token" values) [
    | none ↦ ok cfg
    | some token ↦
        if is_empty token && not (is_empty (get_token token_file cfg))
        then ok cfg
        else if not (is_empty token)
        then ok (set_token token cfg)
        else err (bad_request "Missing token")
  ]

  unfoldable pub read_values :
      (String → Option String)
      → Dict String
      → HomeAssistantSettings p
      → Result (HomeAssistantSettings p)
  read_values token_file values cfg = do
    cfg₁ ← read_url values cfg
    cfg₂ ← read_token token_file values cfg₁
    ok (read_reconnect values (read_heartbeat values (read_connection values cfg₂)))
