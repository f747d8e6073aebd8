-- ===== src/Controller/Url.antt =====
-- The URL that a user enters in the setup flow: `validate_url` of src/controller/handler/setup.rs.
pub mod Scheme
use Prim.Native.String
use integration_home_assista.Prelude.{
  String, Option, none, some, trim, str_eq, if◌then◌else◌, or_else, is_some,
}
use integration_home_assista.Platform.{
  Platform, Parsed, parsed, failed, UrlParseError, relative_url_without_base, other_parse_error,
}
use integration_home_assista.Errors.{Result, ok, err, ◌>>=◌, bad_request}

-- `From<url::ParseError> for ServiceError`
abbrev pub parse_error_text : UrlParseError → String
parse_error_text relative_url_without_base = "relative URL without a base"
parse_error_text (other_parse_error e) = e

module _ (p : Platform) where
  abbrev to_result : Parsed p.Url → Result p.Url
  to_result (parsed u) = ok u
  to_result (failed e) = err (bad_request (parse_error_text e))

  unfoldable pub parse_with_ws_scheme : String → Result p.Url
  parse_with_ws_scheme address = to_result (p.url_parse (String.◌++◌ "ws://" address))

  -- The first match: a relative URL gets the scheme `ws`.
  abbrev first_parse : String → Parsed p.Url → Result p.Url
  first_parse addr (parsed u) = ok u
  first_parse addr (failed relative_url_without_base) = parse_with_ws_scheme addr
  first_parse addr (failed (other_parse_error e)) = err (bad_request e)

  -- `let _ = url.set_scheme(…)`
  unfoldable pub force_scheme : String → p.Url → p.Url
  force_scheme s url = or_else (p.set_scheme s url) url

  unfoldable pub check_scheme : p.Url → Result p.Url
  check_scheme url =
      let s = p.scheme url in
      if str_eq s "http"
      then ok (force_scheme "ws" url)
      else if str_eq s "https"
      then ok (force_scheme "wss" url)
      else if str_eq s "ws"
      then ok url
      else if str_eq s "wss"
      then ok url
      else err (bad_request "Invalid scheme, allowed: ws, wss, http, https")

  unfoldable pub validate_url : Option String → Result p.Url
  validate_url none = err (bad_request "Missing field: url")
  validate_url (some text) = do
    let addr = trim text
    url ← first_parse addr (p.url_parse addr)
    url' ← (if is_some (p.host_str url) then ok url else parse_with_ws_scheme addr)
    check_scheme url'
