-- ===== src/Program/Publish.antt =====
-- src/server/mdns.rs: the registration of the service. The crates `mdns_sd`, `hostname`
-- and `if_addrs` are parameters.
pub mod Zeroconf
use Prim.Native.String.{◌++◌ as join}
use integration_home_assista.Prelude.{
  ℕ, String, Bool, true, Option, none, some, List, [], ◌⊎◌, inl, inr, if◌then◌else◌, str_eq,
}
use integration_home_assista.Prelude.Dict.{Dict}
use integration_home_assista.Errors.{
  Result, ok, err, ◌>>=◌, service_unavailable, internal_server_error,
}
use integration_home_assista.Errors.Io.{IoError, from_io_error}
use integration_home_assista.Program.Network.{Interface, my_ipv4_addresses}
use integration_home_assista.Program.Metadata.{Publication, properties}

-- The daemon, where there is one: its error for the type, the name, the host, the addresses, the port
-- and the properties of a service.
pub record Network : Type 0 where
  pub daemon : Option (String → String → String → List String → ℕ → Dict String → Option String)
  pub hostname : String ⊎ IoError
  pub interfaces : Option (List Interface)

abbrev io_result : {A : Type 0} → A ⊎ IoError → Result A
io_result (inl a) = ok a
io_result (inr e) = err (from_io_error e)

abbrev or_empty : {A : Type 0} → Option (List A) → List A
or_empty none = []
or_empty (some xs) = xs

-- `str::ends_with`
unfoldable ends_with : String → String → Bool
ends_with String.[] ending = str_eq "" ending
ends_with (String.◌∷◌ c s) ending =
    let rest = ends_with s ending in if str_eq (String.◌∷◌ c s) ending then true else rest

abbrev registration_type : Publication → String
registration_type service =
    let reg_type = join "_" (join service.service_name (join "._" service.protocol)) in
    if ends_with reg_type ".local." then reg_type else join reg_type ".local."

-- `publish_service`
unfoldable publish_service : Network → Publication → Result (Unit {0})
publish_service network service = elim network.daemon [
  | none ↦ err (service_unavailable "mDNS service not available")
  | some register ↦ do
    hostname ← io_result network.hostname
    elim (register (registration_type service) service.instance_name hostname
        (my_ipv4_addresses (or_empty network.interfaces)) service.port (properties service.txt)) [
          | none ↦ ok tt
          | some e ↦ err (
              internal_server_error (
                join "Failed to register "
                  (join (registration_type service) (join " mdns service! Error: " e))))
        ]
]
