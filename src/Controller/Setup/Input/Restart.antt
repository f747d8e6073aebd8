-- ===== src/Controller/Setup/Input/Restart.antt =====
-- What a restart of the program makes of the values that a setup accepted.
use mathlib.Core.Path.{subst}
use integration_home_assista.Prelude.{
  ◌≡◌, ap, sym, ◌∙◌, String, Option, arith, inl, inr, Bool-cases, is_some,
}
use integration_home_assista.Prelude.Dict.{Dict, lookup}
use integration_home_assista.Platform.{Platform}
use integration_home_assista.Settings.{
  HomeAssistantSettings, checked, check_url, replace_scheme, set_url, set_token,
}
use integration_home_assista.Errors.{ok, bind-ok, ok-injective}
use integration_home_assista.Controller.Url.{validate_url}
use integration_home_assista.Controller.Url.Scheme.{
  SetsScheme, IsWebSocket, validate_url-IsWebSocket,
}
use integration_home_assista.Controller.Setup.Input.{
  read_values, read_heartbeat, read_connection, read_reconnect, read_url, read_token,
}

module _ {p : Platform} where
  heartbeat_kept :
      (c e : HomeAssistantSettings p) → check_url c ≡ checked e → e.heartbeat ≡ c.heartbeat
  unfolding check_url replace_scheme
  heartbeat_kept c e k = ground arith

  url_read :
      (values : Dict String) (cfg d : HomeAssistantSettings p)
      → SetsScheme p
      → IsWebSocket p cfg.url
      → read_url values cfg ≡ ok d
      → IsWebSocket p d.url
  unfolding read_url set_url
  url_read values cfg d sets h e = elim (Bool-cases (is_some (lookup "url" values))) [
    | inl given ↦
        let (url, v, r) =
          bind-ok (validate_url p (lookup "url" values)) (λ u. ok (set_url u cfg))
            (rw given at e) in
        subst (λ x. IsWebSocket p x.url) (ok-injective r)
          (validate_url-IsWebSocket p (lookup "url" values) url sets v)
    | inr absent ↦ subst (λ x. IsWebSocket p x.url) (ok-injective (rw absent at e)) h
  ]

  token_read :
      (token_file : String → Option String) (values : Dict String) (cfg d : HomeAssistantSettings p)
      → read_token token_file values cfg ≡ ok d
      → d.url ≡ cfg.url
  unfolding read_token set_token
  token_read token_file values cfg d e = ground arith

  others_read :
      (values : Dict String) (cfg : HomeAssistantSettings p)
      → (read_reconnect values (read_heartbeat values (read_connection values cfg))).url ≡ cfg.url
  unfolding read_reconnect read_heartbeat read_connection
  others_read values cfg = ground arith

  pub read_values-IsWebSocket :
      (token_file : String → Option String) (values : Dict String) (cfg d : HomeAssistantSettings p)
      → SetsScheme p
      → IsWebSocket p cfg.url
      → read_values token_file values cfg ≡ ok d
      → IsWebSocket p d.url
  unfolding read_values
  read_values-IsWebSocket token_file values cfg d sets h e =
      let (cfg₁, e₁, r₁) = bind-ok (read_url values cfg) _ e in
      let (cfg₂, e₂, r₂) = bind-ok (read_token token_file values cfg₁) _ r₁ in
      let k : cfg₁.url ≡ d.url =
        sym (token_read token_file values cfg₁ cfg₂ e₂)
        ∙ sym (others_read values cfg₂)
        ∙ ap (λ x. x.url) (ok-injective r₂) in
      subst (IsWebSocket p) k (url_read values cfg cfg₁ sets h e₁)
