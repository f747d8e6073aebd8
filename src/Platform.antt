-- ===== src/Platform.antt =====
-- What the program takes from its dependencies: the crate `url`, the floats, and the driver
-- metadata type of `uc_api`. All of it is a parameter of the model.
use integration_home_assista.Prelude.{ℕ, String, Bool, Option}

-- `url::ParseError`, as far as the code tells its cases apart.
pub data UrlParseError : Type 0 where
  relative_url_without_base : UrlParseError
  other_parse_error : String → UrlParseError

-- The outcome of `Url::parse`.
pub data Parsed (U : Type 0) : Type 0 where
  parsed : U → Parsed U
  failed : UrlParseError → Parsed U

-- The external types, with the operations that the code calls on them.
pub record Platform : Type 1 where
  pub Url : Type 0
  pub url_parse : String → Parsed Url
  pub scheme : Url → String
  -- `none` is the error of `Url::set_scheme`, which leaves the URL as it was.
  pub set_scheme : String → Url → Option Url
  pub host_str : Url → Option String
  pub has_host : Url → Bool
  pub port_or_known_default : Url → Option ℕ
  -- `Url::as_str`, and `set_path("")`.
  pub url_text : Url → String
  pub without_path : Url → Url
  pub F32 : Type 0
  pub f32_from_str : String → Option F32
  pub ge_one : F32 → Bool
  pub lt_one : F32 → Bool
  -- `(ms as f32 * factor) as u64`
  pub scale_ms : ℕ → F32 → ℕ
  pub default_backoff : F32
  pub F64 : Type 0
  -- `n as f64`, of an unsigned and of a negated number.
  pub f64_of_uint : ℕ → F64
  pub f64_of_negative : ℕ → F64
  -- `n as f64 / 100` and `n as f32 / 1000`.
  pub hundredths : ℕ → F64
  pub thousandths : ℕ → F64
  pub DriverMetadata : Type 0
