-- ===== src/Program/Listeners.antt =====
-- src/main.rs: the sockets of the server.
use Prim.Native.String.{◌++◌ as join}
use integration_home_assista.Prelude.{
  ℕ, String, true, Option, none, some, List, [], ◌∷◌, ◌≡◌, ◌≢◌, arith, decimal, is_some, ◌||◌,
  if◌then◌else◌,
}
use integration_home_assista.Errors.Io.{IoError, invalid_data}
use integration_home_assista.Settings.Load.{
  IntegrationSettings, CertificateSettings, default_certificates,
}
use integration_home_assista.Program.{Startup, done, io_error, exits, ◌>>=◌, new_error}

-- `Listeners`, with the type of the sockets.
pub record Listeners (L : Type 0) : Type 0 where
  pub listener : Option L
  pub listener_tls : Option L
  pub certs : CertificateSettings

abbrev pub address : IntegrationSettings → ℕ → String
address cfg port = join cfg.interface (join ":" (decimal 5 port))

abbrev pub no_listener : IoError
no_listener =
    new_error invalid_data "InvalidData" "At least one http or https listener must be specified"

-- `bind` is given the sockets that are bound already.
module _ {L : Type 0} (bind : List L → String → Startup L) where
  unfoldable pub listen_http : IntegrationSettings → Startup (Option L)
  listen_http cfg =
      if cfg.http.enabled
      then (do l ← bind [] (address cfg cfg.http.port); done (some l))
      else done none

  abbrev pub bound : Option L → List L
  bound none = []
  bound (some l) = l ∷ []

  unfoldable pub listen_https :
      IntegrationSettings → Option L → Option CertificateSettings → Startup (Listeners L)
  listen_https cfg listener none = exits
  listen_https cfg listener (some certs) = do
    l ← bind (bound listener) (address cfg cfg.https.port)
    done (record { listener = listener; listener_tls = some l; certs = certs })

  abbrev pub without_tls : Option L → Startup (Listeners L)
  without_tls none = io_error no_listener
  without_tls (some l) =
      done (record { listener = some l; listener_tls = none; certs = default_certificates })

  unfoldable pub create_tcp_listeners : IntegrationSettings → Startup (Listeners L)
  create_tcp_listeners cfg = do
    listener ← listen_http cfg
    if cfg.https.enabled then listen_https cfg listener cfg.certs else without_tls listener

  -- The program listens exactly on the sockets that are enabled, at least on one, and with TLS only
  -- with the configured certificates. It exits itself only where https is enabled without
  -- certificates.
  pub create_tcp_listeners_lem :
      (cfg : IntegrationSettings)
      → ((b : List L) (a : String) → bind b a ≢ exits)
      → ((l : Listeners L)
          → create_tcp_listeners cfg ≡ done l
          → (is_some l.listener ≡ cfg.http.enabled)
            × (is_some l.listener_tls ≡ cfg.https.enabled)
            × ((cfg.http.enabled || cfg.https.enabled) ≡ true)
            × (cfg.https.enabled ≡ true → cfg.certs ≡ some l.certs))
        × (create_tcp_listeners cfg ≡ exits → (cfg.https.enabled ≡ true) × (cfg.certs ≡ none))
  unfolding create_tcp_listeners listen_http listen_https
  create_tcp_listeners_lem cfg h =
      (λ l e. (ground arith, ground arith, ground arith, λ t. ground arith), λ e. grind (arith, h))
