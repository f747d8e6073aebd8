-- ===== src/Program/Certificates/Panics.antt =====
-- src/util/certificates.rs: the server configuration panics only where the certificate does not fit its key.
use integration_home_assista.Prelude.{
  String, none, List, [], ◌∷◌, ◌⊎◌, inl, inr, ◌≡◌, ◌≢◌, refl, arith, not, ◌&&◌, if_keep,
}
use integration_home_assista.Errors.Io.{IoError}
use integration_home_assista.Program.{Startup, done, io_error, exits, panics, ◌>>=◌}
use integration_home_assista.Program.Certificates.{
  CertificateFiles, Item, rsa_key, pkcs8_key, other_item, create_single_cert_server_config,
  load_certs, load_private_key, load_private_key_from_reader,
}

pub >>=-ne-panics :
    {A B : Type 0} (m : Startup A) (f : A → Startup B)
    → m ≢ panics
    → ((a : A) → m ≡ done a → f a ≢ panics)
    → (m >>= f) ≢ panics
>>=-ne-panics (done a) f h k = k a refl
>>=-ne-panics (io_error e) f h k = cc
>>=-ne-panics exits f h k = cc
>>=-ne-panics panics f h k = absurd (h refl)

key-ne-panics :
    {Key : Type 0} (reader : List (Item Key ⊎ IoError))
    → load_private_key_from_reader reader ≢ panics
unfolding load_private_key_from_reader
key-ne-panics [] = cc
key-ne-panics (inr e ∷ reader) = cc
key-ne-panics (inl (rsa_key key) ∷ reader) = cc
key-ne-panics (inl (pkcs8_key key) ∷ reader) = cc
key-ne-panics (inl other_item ∷ reader) = key-ne-panics reader

module _ {Cert Key Config : Type 0} (files : CertificateFiles Cert Key Config) where
  -- The certificate chain and the key of the two files, where both can be read, fit each other.
  abbrev pub FitsKey : String → String → Type 0
  FitsKey cert_file key_file =
      (chain : List Cert) (key : Key)
      → load_certs files cert_file ≡ done chain
      → load_private_key files key_file ≡ done key
      → files.with_single_cert chain key ≢ none

  certs-ne-panics : (filename : String) → load_certs files filename ≢ panics
  unfolding load_certs
  certs-ne-panics filename = ground arith

  private_key-ne-panics : (filename : String) → load_private_key files filename ≢ panics
  unfolding load_private_key
  private_key-ne-panics filename = ground (arith, key-ne-panics (files.read_items filename))

  pub server_config-ne-panics :
      (cert_file key_file : String)
      → FitsKey cert_file key_file
      → create_single_cert_server_config files cert_file key_file ≢ panics
  unfolding create_single_cert_server_config
  server_config-ne-panics cert_file key_file fits =
      if_keep (λ x. x ≢ panics) (not (files.exists cert_file && files.exists key_file)) (cc)
        (>>=-ne-panics (load_certs files cert_file) _ (certs-ne-panics cert_file) λ certs e.
          >>=-ne-panics (load_private_key files key_file) _ (private_key-ne-panics key_file)
            λ key k. ground (arith, fits certs key e k))
