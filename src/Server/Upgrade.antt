-- ===== src/Server/Upgrade.antt =====
-- The start of a connection in src/server/ws/mod.rs: the check of the token, and the new actor. The
-- request, the environment variable and the random id are parameters.
use Prim.Native.String.{◌++◌ as join}
use text.Mathlib.TextEquality.{eq_iff}
use integration_home_assista.Prelude.{
  ℕ, String, Bool, true, false, Option, none, some, ◌≡◌, ◌≢◌, refl, arith, ◌||◌, str_eq, decimal,
  if◌then◌else◌, Bool-cases, inl, inr,
}
use integration_home_assista.Settings.{HeartbeatSettings}
use integration_home_assista.Server.{WsConn}

-- `HttpRequest`, as far as it is read: the address of the peer, and the header `auth-token`, where it
-- is there and is a text.
pub record HttpRequest : Type 0 where
  pub peer_addr : Option (String × ℕ)
  pub auth_token : Option String

-- The answer to the request, or the actor of the new connection.
pub data Upgrade : Type 0 where
  unauthorized : String → String → Upgrade
  upgraded : WsConn → Upgrade

-- `WsConn::new`, with the value of the environment variable.
unfoldable new_conn : String → HeartbeatSettings → String → ℕ → WsConn
new_conn client_id heartbeat msg_tracing now = record {
  id = client_id;
  hb = now;
  heartbeat = heartbeat;
  msg_tracing_in = str_eq msg_tracing "all" || str_eq msg_tracing "in";
  msg_tracing_out = str_eq msg_tracing "all" || str_eq msg_tracing "out";
}

-- `auth_token == websocket_settings.token`
abbrev same_token : Option String → Option String → Bool
same_token none none = true
same_token none (some _) = false
same_token (some _) none = false
same_token (some token) (some given) = str_eq given token

unfoldable is_authenticated : Option String → Option String → Bool
is_authenticated none header = true
is_authenticated (some token) header = same_token (some token) header

-- The address of the peer, or a random id where it is not known.
unfoldable client_id : Option (String × ℕ) → String → String
client_id (some (ip, port)) uuid = join ip (join ":" (decimal 5 port))
client_id none uuid = uuid

-- `ws_index`
unfoldable ws_index :
    Option String → HeartbeatSettings → String → String → ℕ → HttpRequest → Upgrade
ws_index token heartbeat msg_tracing uuid now request =
    if is_authenticated token request.auth_token
    then upgraded (new_conn (client_id request.peer_addr uuid) heartbeat msg_tracing now)
    else unauthorized "ERROR" "Authentication failed"

is_authenticated_lem :
    (token header : Option String)
    → (is_authenticated token header ≡ true → token ≢ none → header ≡ token)
      × (is_authenticated token header ≡ false → (token ≢ none) × (header ≢ token))
unfolding is_authenticated
is_authenticated_lem none header = (λ e k. absurd (k refl), ground arith)
is_authenticated_lem (some token) none = (ground arith, ground arith)
is_authenticated_lem (some token) (some given) =
    (ground (arith, eq_iff given token), ground (arith, eq_iff given token))

-- With a token in the settings, a connection is opened only for a request that carries this token,
-- and its last activity is now; a request is refused only if a token is set and the request does not
-- carry it.
ws_index_lem :
    (token : Option String) (heartbeat : HeartbeatSettings) (msg_tracing uuid : String) (now : ℕ)
    (request : HttpRequest)
    → ((conn : WsConn)
        → ws_index token heartbeat msg_tracing uuid now request ≡ upgraded conn
        → (token ≢ none → request.auth_token ≡ token) × (conn.hb ≡ now))
      × ((problem text : String)
          → ws_index token heartbeat msg_tracing uuid now request ≡ unauthorized problem text
          → (token ≢ none) × (request.auth_token ≢ token))
unfolding ws_index new_conn
ws_index_lem token heartbeat msg_tracing uuid now request =
    let (accepted, refused) = is_authenticated_lem token request.auth_token in
    elim (Bool-cases (is_authenticated token request.auth_token)) [
      | inl q ↦
          (λ conn e. (accepted q, ground (arith, e, q)), λ problem text e. ground (arith, e, q))
      | inr q ↦ (λ conn e. ground (arith, e, q), λ problem text e. refused q)
    ]
