-- ===== src/Program/Network.antt =====
-- src/util/network.rs: the client that connects to Home Assistant, and the addresses of the host.
use integration_home_assista.Prelude.{
  ℕ, String, Bool, not, Option, none, some, List, [], ◌∷◌, if◌then◌else◌,
}
use integration_home_assista.Program.{bool_from_env}

-- A network interface of `if_addrs`, with its address; the flag says that it is a loopback interface.
pub data Interface : Type 0 where
  v4 : Bool → String → Interface
  v6 : Bool → String → Interface

-- `my_ipv4_interfaces`, with `ip()` of each.
unfoldable pub my_ipv4_addresses : List Interface → List String
my_ipv4_addresses [] = []
my_ipv4_addresses (v4 is_loopback ip ∷ interfaces) =
    let rest = my_ipv4_addresses interfaces in if is_loopback then rest else ip ∷ rest
my_ipv4_addresses (v6 is_loopback ip ∷ interfaces) = my_ipv4_addresses interfaces

-- What the crates `awc` and `rustls` are told.
pub record TlsConfig : Type 0 where
  pub alpn_protocols : List String
  pub verifies_certificates : Bool

pub record ClientConfig : Type 0 where
  pub connection_timeout : ℕ
  pub request_timeout : ℕ
  pub tls : Option TlsConfig

unfoldable new_websocket_client : (String → Option String) → ℕ → ℕ → Bool → ClientConfig
new_websocket_client var connection_timeout request_timeout tls = record {
  connection_timeout = connection_timeout;
  request_timeout = request_timeout;
  tls =
      if tls
      then some (record {
        alpn_protocols = "http/1.1" ∷ [];
        verifies_certificates = not (bool_from_env var "UC_DISABLE_CERT_VERIFICATION");
      })
      else none;
}
