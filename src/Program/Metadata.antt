-- ===== src/Program/Metadata.antt =====
-- The metadata of the driver: `get_driver_metadata` of src/configuration.rs, `publish_mdns` of src/main.rs,
-- and the properties that src/server/mdns.rs makes of its texts.
use Prim.Native.String.append
use Prim.Native.Char.{code}
use Prim.Native.String.{◌++◌ as join}
use integration_home_assista.Prelude.{
  ℕ, String, Bool, true, false, Option, none, some, List, [], ◌∷◌, ◌⊎◌, inl, inr, ◌≡◌, refl, arith,
  ◌==◌, or_else, if◌then◌else◌, Option-cases, ap, ◌∙◌,
}
use integration_home_assista.Prelude.Dict.{Dict}
use integration_home_assista.Errors.Io.{invalid_data}
use integration_home_assista.Program.{Startup, done, io_error, panics, new_error}

-- `IntegrationDriverUpdate` of `uc_api`: the fields that the program uses, and the others. A developer
-- has a name or none.
pub record DriverUpdate (Other : Type 0) : Type 0 where
  pub driver_id : Option String
  pub token : Option String
  pub name : Option (Dict String)
  pub version : Option String
  pub developer : Option (Option String)
  pub pwd_protected : Option Bool
  pub others : Other

abbrev pub has_entries : Option (Dict String) → Bool
has_entries none = false
has_entries (some []) = false
has_entries (some (_ ∷ _)) = true

abbrev pub developer_name : Option (Option String) → Option String
developer_name none = none
developer_name (some name) = name

abbrev pub bool_text : Bool → String
bool_text true = "true"
bool_text false = "false"

module _ {Other : Type 0} where
  -- `get_driver_metadata`, with the decoded file and the version of the program.
  unfoldable pub get_driver_metadata :
      DriverUpdate Other ⊎ String → String → Startup (DriverUpdate Other)
  get_driver_metadata (inr e) app_version =
      io_error (new_error invalid_data "InvalidData" (join "Invalid driver.json format: " e))
  get_driver_metadata (inl driver) app_version = done (record driver {
    driver_id = some (or_else driver.driver_id "home-assistant");
    name = if has_entries driver.name then driver.name else some (("en", "Home Assistant") ∷ []);
    token = none;
    version = some app_version;
  })

  -- The texts that `publish_mdns` hands over. `text_from_language_map` belongs to `uc_api`.
  unfoldable pub mdns_texts :
      (Option (Dict String) → Option String) → DriverUpdate Other → String → List String
  mdns_texts name_text drv_metadata app_version =
      join "name=" (or_else (name_text drv_metadata.name) "Home Assistant")
      ∷ join "developer=" (or_else (developer_name drv_metadata.developer) "Unfolded Circle ApS")
      ∷ "ws_path=/ws"
      ∷ join "pwd=" (bool_text (or_else drv_metadata.pwd_protected false))
      ∷ join "ver=" app_version
      ∷ []

-- What `publish_service` is called with.
pub record Publication : Type 0 where
  pub instance_name : String
  pub service_name : String
  pub protocol : String
  pub port : ℕ
  pub txt : List String

-- `publish_mdns`, up to the call; the error of the call is only logged.
unfoldable pub publish_mdns :
    {Other : Type 0}
    → (Option (Dict String) → Option String)
    → String
    → ℕ
    → DriverUpdate Other
    → Startup Publication
publish_mdns name_text app_version api_port drv_metadata = elim drv_metadata.driver_id [
  | none ↦ panics
  | some driver_id ↦ done (record {
    instance_name = driver_id;
    service_name = "uc-integration";
    protocol = "tcp";
    port = api_port;
    txt = mdns_texts name_text drv_metadata app_version;
  })
]

-- `s.split_once('=')`
unfoldable pub split_once_eq : String → Option (String × String)
split_once_eq String.[] = none
split_once_eq (String.◌∷◌ c s) =
    let rest = split_once_eq s in
    if code c == b'='
    then some ("", s)
    else elim rest [ none ↦ none | some (l, r) ↦ some (String.◌∷◌ c l, r) ]

-- The properties that `publish_service` registers: the texts without an equals sign are left out.
unfoldable pub properties : List String → Dict String
properties [] = []
properties (text ∷ texts) =
    let rest = properties texts in
    elim (split_once_eq text) [ none ↦ rest | some entry ↦ entry ∷ rest ]

-- The first equals sign of a text stays the first one when the text goes on.
split_once_eq-append :
    (key text l r : String)
    → split_once_eq key ≡ some (l, r)
    → split_once_eq (join key text) ≡ some (l, join r text)
unfolding split_once_eq
split_once_eq-append String.[] text l r e = cc
split_once_eq-append (String.◌∷◌ c key) text l r e =
    rw (append.cons c key text) (elim (Option-cases (split_once_eq key)) [
      | inl q ↦ ground arith
      | inr ((l', r'), q) ↦ ground (arith, split_once_eq-append key text l' r' q)
    ])

entry_read :
    (name key value : String)
    → split_once_eq key ≡ some (name, "")
    → split_once_eq (join key value) ≡ some (name, value)
entry_read name key value e =
    split_once_eq-append key value name "" e ∙ ap (λ v. some (name, v)) (append.nil value)

-- The registered properties are those that the program means, whatever the name, the developer and
-- the version are, with equals signs in them too.
pub properties-mdns_texts :
    {Other : Type 0} (name_text : Option (Dict String) → Option String) (d : DriverUpdate Other)
    (app_version : String)
    → properties (mdns_texts name_text d app_version) ≡ (
        ("name", or_else (name_text d.name) "Home Assistant")
        ∷ ("developer", or_else (developer_name d.developer) "Unfolded Circle ApS")
        ∷ ("ws_path", "/ws")
        ∷ ("pwd", bool_text (or_else d.pwd_protected false))
        ∷ ("ver", app_version)
        ∷ [])
unfolding properties mdns_texts split_once_eq
properties-mdns_texts name_text d app_version =
    let name = or_else (name_text d.name) "Home Assistant" in
    let developer = or_else (developer_name d.developer) "Unfolded Circle ApS" in
    rw (
      entry_read "name" "name=" name refl,
      entry_read "developer" "developer=" developer refl,
      entry_read "pwd" "pwd=" (bool_text (or_else d.pwd_protected false)) refl,
      entry_read "ver" "ver=" app_version refl,
      properties,
    )

-- For every driver file that can be decoded, the metadata is published without a panic: under an id that
-- is never missing, and with the properties that the program means, whatever the name, the developer
-- and the version are, equals signs in them included. The metadata has a name and no token.
pub published_lem :
    {Other : Type 0} (name_text : Option (Dict String) → Option String) (app_version : String)
    (api_port : ℕ) (driver d : DriverUpdate Other)
    → get_driver_metadata (inl driver) app_version ≡ done d
    → (d.token ≡ none)
      × (has_entries d.name ≡ true)
      × (publish_mdns name_text app_version api_port d
          ≡ done (record {
            instance_name = or_else driver.driver_id "home-assistant";
            service_name = "uc-integration";
            protocol = "tcp";
            port = api_port;
            txt = mdns_texts name_text d app_version;
          }))
      × (properties (mdns_texts name_text d app_version) ≡ (
          ("name", or_else (name_text d.name) "Home Assistant")
          ∷ ("developer", or_else (developer_name driver.developer) "Unfolded Circle ApS")
          ∷ ("ws_path", "/ws")
          ∷ ("pwd", bool_text (or_else driver.pwd_protected false))
          ∷ ("ver", app_version)
          ∷ []))
unfolding get_driver_metadata publish_mdns
published_lem name_text app_version api_port driver d e = (
  ground arith,
  ground arith,
  ground arith,
  properties-mdns_texts name_text d app_version ∙ ground arith,
)
