-- ===== src/Controller/Sessions/Version.antt =====
-- The answer of a remote to the request for its version.
use integration_home_assista.Prelude.{String, ◌≡◌, ◌≢◌, ◌↔◌, refl, Option, none, some, arith}
use integration_home_assista.Json.{Value, Fields, obj, get_then, as_str}
use integration_home_assista.Platform.{Platform}
use integration_home_assista.Api.{R2Response, version}
use integration_home_assista.Controller.State.{World, Controller}
use integration_home_assista.Controller.Core.{try_send_ha}
use integration_home_assista.Controller.Sessions.{
  r2_response, unwrap_object, store_remote_id, tell_remote_id,
}

module _ {p : Platform} (w : World p) where
  -- The answer with the version is handled exactly if it carries an object; with anything else the
  -- handler panics. The other answers are always handled, and change nothing.
  pub r2_response_panics :
      (r : R2Response) (data_ : Option (Value p.F64)) (c : Controller p)
      → (r ≡ version → (r2_response w r data_ c ≡ none) ↔ (unwrap_object w data_ ≡ none))
        × (r ≢ version → r2_response w r data_ c ≡ some c)
  unfolding r2_response
  r2_response_panics r data_ c = ground arith

  -- The host name in the version of a remote becomes the id of the remote, and nothing else changes
  -- but for what is sent.
  pub r2_response_remote_id :
      (fs : Fields p.F64) (name : String) (c : Controller p)
      → get_then as_str "hostname" fs ≡ some name
      → (d : Controller p) × (r2_response w version (some (obj fs)) c ≡ some d)
        × (d ≡ record c { remote_id = name; sent = d.sent })
  unfolding r2_response store_remote_id tell_remote_id try_send_ha
  r2_response_remote_id fs name c e =
      (store_remote_id w (get_then as_str "hostname" fs) c, refl, ground arith)
