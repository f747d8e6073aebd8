-- ===== src/Controller/Url/Scheme.antt =====
-- The scheme of the URL that a setup stores.
use integration_home_assista.Prelude.{String, ◌≡◌, ◌⊎◌, Option, none, some, arith, eq_iff, trim}
use integration_home_assista.Platform.{Platform}
use integration_home_assista.Errors.{ok, bind-ok}
use integration_home_assista.Controller.Url.{validate_url, check_scheme, force_scheme, first_parse}

module _ (p : Platform) where
  -- What the crate `url` documents: changing the scheme of an `http` URL to `ws`, or of an `https` URL to
  -- `wss`, succeeds, since these are special schemes, and the result has the new scheme.
  abbrev pub SetsScheme : Type 0
  SetsScheme =
      ((u : p.Url)
        → p.scheme u ≡ "http"
        → (v : p.Url) × (p.set_scheme "ws" u ≡ some v) × (p.scheme v ≡ "ws"))
      × ((u : p.Url)
          → p.scheme u ≡ "https"
          → (v : p.Url) × (p.set_scheme "wss" u ≡ some v) × (p.scheme v ≡ "wss"))

  abbrev pub IsWebSocket : p.Url → Type 0
  IsWebSocket u = (p.scheme u ≡ "ws") ⊎ (p.scheme u ≡ "wss")

  checked : (u v : p.Url) → SetsScheme → check_scheme p u ≡ ok v → IsWebSocket v
  unfolding check_scheme force_scheme
  checked u v h e = ground (
    arith,
    eq_iff (p.scheme u) "http",
    eq_iff (p.scheme u) "https",
    eq_iff (p.scheme u) "ws",
    eq_iff (p.scheme u) "wss",
    h.0 u,
    h.1 u,
  )

  -- Where the crate for URLs sets the WebSocket schemes as it documents, every URL that is accepted
  -- as the address of Home Assistant has the scheme `ws` or `wss`, however the user entered it.
  pub validate_url-IsWebSocket :
      (text : Option String) (v : p.Url) → SetsScheme → validate_url p text ≡ ok v → IsWebSocket v
  unfolding validate_url
  validate_url-IsWebSocket none v h e = cc
  validate_url-IsWebSocket (some text) v h e =
      let (u, _, e₁) = bind-ok (first_parse p (trim text) (p.url_parse (trim text))) _ e in
      let (u', _, e₂) = bind-ok _ (check_scheme p) e₁ in checked u' v h e₂
