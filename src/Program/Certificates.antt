-- ===== src/Program/Certificates.antt =====
-- src/util/certificates.rs: the certificate and the private key of the server. The crates
-- `rustls_pemfile` and `rustls` and the file system are parameters.
pub mod Panics
use Prim.Native.String.{◌++◌ as join}
use integration_home_assista.Prelude.{
  String, Bool, true, false, Option, none, some, List, [], ◌∷◌, ◌++◌, ◌&&◌, not, ◌⊎◌, inl, inr, ◌≡◌,
  ◌≢◌, refl, arith, ap, map, All, if◌then◌else◌,
}
use integration_home_assista.Errors.Io.{IoError, not_found, invalid_data}
use integration_home_assista.Program.{Startup, done, io_error, exits, panics, ◌>>=◌, new_error}

-- `rustls_pemfile::Item`; `other_item` is any variant that the code does not name.
pub data Item (Key : Type 0) : Type 0 where
  rsa_key pkcs8_key : Key → Item Key
  other_item : Item Key

-- The operator `?` on an `io::Result`.
abbrev pub attempt_io : {A : Type 0} → A ⊎ IoError → Startup A
attempt_io (inl a) = done a
attempt_io (inr e) = io_error e

abbrev pub no_private_key : IoError
no_private_key =
    new_error invalid_data "InvalidData"
      "No compatible private keys found (encrypted keys not supported)"

module _ {Key : Type 0} where
  -- The loop of `load_private_key_from_reader`, over what `read_one` returns up to the end of the file.
  unfoldable pub load_private_key_from_reader : List (Item Key ⊎ IoError) → Startup Key
  load_private_key_from_reader [] = io_error no_private_key
  load_private_key_from_reader (inr e ∷ reader) = io_error e
  load_private_key_from_reader (inl (rsa_key key) ∷ reader) = done key
  load_private_key_from_reader (inl (pkcs8_key key) ∷ reader) = done key
  load_private_key_from_reader (inl other_item ∷ reader) = load_private_key_from_reader reader

  -- What is read as a key.
  abbrev pub key_of : Item Key → Option Key
  key_of (rsa_key key) = some key
  key_of (pkcs8_key key) = some key
  key_of other_item = none

-- The files, with what the crates read from them.
pub record CertificateFiles (Cert Key Config : Type 0) : Type 0 where
  pub exists : String → Bool
  pub open_file : String → (Unit {0}) ⊎ IoError
  pub certs : String → List Cert ⊎ IoError
  pub read_items : String → List (Item Key ⊎ IoError)
  pub with_single_cert : List Cert → Key → Option Config

module _ {Cert Key Config : Type 0} (files : CertificateFiles Cert Key Config) where
  unfoldable pub load_certs : String → Startup (List Cert)
  load_certs filename = do
    cert_file ← attempt_io (files.open_file filename)
    attempt_io (files.certs filename)

  unfoldable pub load_private_key : String → Startup Key
  load_private_key filename = do
    key_file ← attempt_io (files.open_file filename)
    load_private_key_from_reader (files.read_items filename)

  -- `expect("bad certificate/key")`
  abbrev pub expect_config : Option Config → Startup Config
  expect_config none = panics
  expect_config (some config) = done config

  unfoldable pub create_single_cert_server_config : String → String → Startup Config
  create_single_cert_server_config cert_file key_file =
      if not (files.exists cert_file && files.exists key_file)
      then io_error (
          new_error not_found "NotFound" (
            join "Custom certificates not found: \""
              (join cert_file (join "\", \"" (join key_file "\"")))))
      else do
        cert_chain ← load_certs cert_file
        private_key ← load_private_key key_file
        expect_config (files.with_single_cert cert_chain private_key)

abbrev IsOther : {Key : Type 0} → Item Key → Type 0
IsOther item = key_of item ≡ none

-- The loop ends for every file. It returns the first RSA or PKCS8 key, whatever stands before it, and
-- the error of a file without one; nothing after the key is looked at, so that it may be unreadable.
pub load_private_key_lem :
    {Key : Type 0} (skipped : List (Item Key)) (rest : List (Item Key ⊎ IoError))
    → All IsOther skipped
    → (load_private_key_from_reader (map inl skipped) ≡ io_error no_private_key)
      × ((item : Item Key) (key : Key)
          → key_of item ≡ some key
          → load_private_key_from_reader (map inl skipped ++ inl item ∷ rest) ≡ done key)
      × ((e : IoError)
          → load_private_key_from_reader (map inl skipped ++ inr e ∷ rest) ≡ io_error e)
unfolding load_private_key_from_reader
load_private_key_lem [] rest h = (refl, λ item key e. ground arith, λ e. refl)
load_private_key_lem (other_item ∷ skipped) rest h = load_private_key_lem skipped rest h.1
load_private_key_lem (rsa_key key ∷ skipped) rest h = absurd (ground arith)
load_private_key_lem (pkcs8_key key ∷ skipped) rest h = absurd (ground arith)
