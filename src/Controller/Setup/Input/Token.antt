-- ===== src/Controller/Setup/Input/Token.antt =====
-- The token that a setup stores.
use integration_home_assista.Prelude.{
  ◌≡◌, sym, ap, ◌∙◌, false, String, Option, some, arith, is_empty, trim,
}
use integration_home_assista.Prelude.Dict.{Dict, lookup}
use integration_home_assista.Platform.{Platform}
use integration_home_assista.Settings.{HomeAssistantSettings, set_token}
use integration_home_assista.Errors.{ok, bind-ok, ok-injective}
use integration_home_assista.Controller.Setup.Input.{
  read_values, read_url, read_token, read_connection, read_heartbeat, read_reconnect,
}

module _ {p : Platform} where
  token_read :
      (token_file : String → Option String) (values : Dict String) (token : String)
      (cfg d : HomeAssistantSettings p)
      → lookup "token" values ≡ some token
      → is_empty token ≡ false
      → read_token token_file values cfg ≡ ok d
      → d.token ≡ trim token
  unfolding read_token set_token
  token_read token_file values token cfg d l n e = ground arith

  token_kept :
      (values : Dict String) (cfg : HomeAssistantSettings p)
      → (read_reconnect values (read_heartbeat values (read_connection values cfg))).token
        ≡ cfg.token
  unfolding read_reconnect read_heartbeat read_connection
  token_kept values cfg = ground arith

  -- Where a setup accepts the values and the user entered a token, of one character at least, the
  -- token that is stored is the trimmed one: that of blanks is the empty text.
  pub read_values-trim :
      (token_file : String → Option String) (values : Dict String) (token : String)
      (cfg d : HomeAssistantSettings p)
      → lookup "token" values ≡ some token
      → is_empty token ≡ false
      → read_values token_file values cfg ≡ ok d
      → d.token ≡ trim token
  unfolding read_values
  read_values-trim token_file values token cfg d l n e =
      let (cfg₁, _, r₁) = bind-ok (read_url values cfg) _ e in
      let (cfg₂, e₂, r₂) = bind-ok (read_token token_file values cfg₁) _ r₁ in
      ap (λ x. x.token) (sym (ok-injective r₂))
      ∙ token_kept values cfg₂
      ∙ token_read token_file values token cfg₁ cfg₂ l n e₂
