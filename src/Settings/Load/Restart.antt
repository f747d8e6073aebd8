-- ===== src/Settings/Load/Restart.antt =====
-- src/configuration.rs: what a start of the program loads, with a damaged user file and with settings of
-- a setup.
use mathlib.Core.Path.{subst}
use integration_home_assista.Prelude.{
  String, Option, none, some, ◌∷◌, ◌⊎◌, inl, inr, ◌≡◌, ◌≢◌, arith, refl, eq_iff,
}
use integration_home_assista.Platform.{Platform}
use integration_home_assista.Settings.{
  HomeAssistantSettings, Checked, checked, invalid_scheme, panicked, check_cfg_values, check_url,
  check_reconnect, check_heartbeat,
}
use integration_home_assista.Settings.Valid.{IsUsable, HasBackoff, check_cfg_values-IsUsable}
use integration_home_assista.Settings.Load.{
  Settings, Load, loaded, load_failed, load_panicked, ◌>>=◌, attempt, ConfigCrate, layers,
  default_settings, check_settings, load_configuration, get_configuration,
}
use integration_home_assista.Controller.Url.Scheme.{SetsScheme, IsWebSocket}

-- To split on a load that is computed.
Load-cases :
    {A : Type 0} (r : Load A)
    → ((a : A) × (r ≡ loaded a)) ⊎ ((e : String) × (r ≡ load_failed e)) ⊎ (r ≡ load_panicked)
Load-cases (loaded a) = inl (a, refl)
Load-cases (load_failed e) = inr (inl (e, refl))
Load-cases load_panicked = inr (inr refl)

printed_cases : (r : String ⊎ String) → ((a : String) × (r ≡ inl a)) ⊎ ((e : String) × (r ≡ inr e))
printed_cases (inl a) = inl (a, refl)
printed_cases (inr e) = inr (e, refl)

Checked-cases :
    {p : Platform} (r : Checked p)
    → ((h : HomeAssistantSettings p) × (r ≡ checked h))
      ⊎ ((e : String) × (r ≡ invalid_scheme e))
      ⊎ (r ≡ panicked)
Checked-cases (checked h) = inl (h, refl)
Checked-cases (invalid_scheme e) = inr (inl (e, refl))
Checked-cases panicked = inr (inr refl)

attempt-ne-panicked : {A : Type 0} (r : A ⊎ String) → attempt r ≢ load_panicked
attempt-ne-panicked r = ground arith

-- What a chain that succeeds has passed, and that a panic of a chain comes from one of its parts.
>>=-eq-loaded :
    {A B : Type 0} (m : Load A) (f : A → Load B) (b : B)
    → (m >>= f) ≡ loaded b
    → (a : A) × (m ≡ loaded a) × (f a ≡ loaded b)
>>=-eq-loaded (loaded a) f b h = (a, refl, h)
>>=-eq-loaded (load_failed e) f b h = cc
>>=-eq-loaded load_panicked f b h = cc

>>=-ne-panicked :
    {A B : Type 0} (m : Load A) (f : A → Load B)
    → m ≢ load_panicked
    → ((a : A) → f a ≢ load_panicked)
    → (m >>= f) ≢ load_panicked
>>=-ne-panicked (loaded a) f h k = k a
>>=-ne-panicked (load_failed e) f h k = cc
>>=-ne-panicked load_panicked f h k = absurd (h refl)

module _ {p : Platform} (sets : SetsScheme p) (backoff : HasBackoff p) where
  check_settings-ne-panicked : (s : Settings p) → check_settings s ≢ load_panicked
  unfolding check_settings
  check_settings-ne-panicked s = ground (arith, (check_cfg_values-IsUsable p s.hass sets backoff).0)

  check_settings-IsUsable : (s t : Settings p) → check_settings s ≡ loaded t → IsUsable p t.hass
  unfolding check_settings
  check_settings-IsUsable s t e = elim (Checked-cases (check_cfg_values s.hass)) [
    | inl (h, q) ↦
        let k : h ≡ t.hass = ground arith in
        subst (IsUsable p) k ((check_cfg_values-IsUsable p s.hass sets backoff).1 h q).0
    | inr (inl (x, q)) ↦ absurd (ground arith)
    | inr (inr q) ↦ absurd (ground arith)
  ]

  module _ (crate : ConfigCrate p) where
    load-ne-panicked :
        (d : Settings p) (filename user_config : Option String)
        → default_settings p ≡ loaded d
        → load_configuration crate filename user_config ≢ load_panicked
    unfolding load_configuration
    load-ne-panicked d filename user_config e =
        rw (e, ◌>>=◌)
          (>>=-ne-panicked (attempt (crate.try_from d)) _ (attempt-ne-panicked _) λ s.
            >>=-ne-panicked (attempt (crate.build (s ∷ layers crate filename user_config))) _
              (attempt-ne-panicked _)
              λ c.
                >>=-ne-panicked (attempt (crate.try_deserialize c)) _ (attempt-ne-panicked _)
                  check_settings-ne-panicked)

    load-IsUsable :
        (filename user_config : Option String) (t : Settings p)
        → load_configuration crate filename user_config ≡ loaded t
        → ((d : Settings p) × (default_settings p ≡ loaded d)) × IsUsable p t.hass
    unfolding load_configuration
    load-IsUsable filename user_config t e =
        let (d, e₁, r₁) = >>=-eq-loaded (default_settings p) _ t e in
        let (s, e₂, r₂) = >>=-eq-loaded (attempt (crate.try_from d)) _ t r₁ in
        let (c, e₃, r₃) =
          >>=-eq-loaded (attempt (crate.build (s ∷ layers crate filename user_config))) _ t r₂ in
        let (x, e₄, r₄) = >>=-eq-loaded (attempt (crate.try_deserialize c)) check_settings t r₃ in
        ((d, e₁), check_settings-IsUsable x t r₄)

    -- Whatever is loaded is usable.
    pub loaded-IsUsable :
        (filename user_settings : Option String) (t : Settings p)
        → get_configuration crate user_settings filename ≡ loaded t
        → IsUsable p t.hass
    unfolding get_configuration
    loaded-IsUsable filename none t e = (load-IsUsable filename none t e).1
    loaded-IsUsable filename (some content) t e =
        elim (Load-cases (load_configuration crate filename (some content))) [
          | inl (cfg, r) ↦
              let k : cfg ≡ t = ground arith in
              subst (λ x. IsUsable p x.hass) k (load-IsUsable filename (some content) cfg r).1
          | inr (inl (x, r)) ↦
              let q : load_configuration crate filename none ≡ loaded t = ground arith in
              (load-IsUsable filename none t q).1
          | inr (inr r) ↦ absurd (ground arith)
        ]

    -- A user file never keeps the configuration from loading: whatever the file holds, where the
    -- settings load without it, some settings are loaded, and their part for Home Assistant is usable.
    pub get_configuration-IsUsable :
        (filename user_settings : Option String) (base : Settings p)
        → load_configuration crate filename none ≡ loaded base
        → (cfg : Settings p) × (get_configuration crate user_settings filename ≡ loaded cfg)
          × IsUsable p cfg.hass
    unfolding get_configuration
    get_configuration-IsUsable filename none base e =
        (base, e, (load-IsUsable filename none base e).1)
    get_configuration-IsUsable filename (some content) base e =
        let (d, q) = (load-IsUsable filename none base e).0 in
        elim (Load-cases (load_configuration crate filename (some content))) [
          | inl (cfg, r) ↦
              (cfg, rw (r, get_configuration), (load-IsUsable filename (some content) cfg r).1)
          | inr (inl (x, r)) ↦
              (base, rw (r, get_configuration) e, (load-IsUsable filename none base e).1)
          | inr (inr r) ↦ absurd (load-ne-panicked d filename (some content) q r)
        ]

module _ {p : Platform} where
  url_kept : (cfg : HomeAssistantSettings p) → IsWebSocket p cfg.url → check_url cfg ≡ checked cfg
  unfolding check_url
  url_kept cfg h = ground (arith, eq_iff (p.scheme cfg.url) "ws", eq_iff (p.scheme cfg.url) "wss")

  -- What the check makes of settings with a WebSocket URL.
  abbrev pub corrected : HomeAssistantSettings p → HomeAssistantSettings p
  corrected cfg = record cfg {
    reconnect = check_reconnect cfg.reconnect;
    heartbeat = check_heartbeat cfg.heartbeat;
  }

  pub check-corrected :
      (cfg : HomeAssistantSettings p)
      → IsWebSocket p cfg.url
      → check_cfg_values cfg ≡ checked (corrected cfg)
  unfolding check_cfg_values
  check-corrected cfg h = url_kept (corrected cfg) h
