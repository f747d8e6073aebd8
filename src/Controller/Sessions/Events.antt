-- ===== src/Controller/Sessions/Events.antt =====
-- Of the handlers of the connections of the remotes, only that of a new session changes which
-- sessions the controller knows; and the end of a session, which is one equation.
use text.Mathlib.Text.{◌==◌}
use text.Mathlib.TextEquality.{eq_iff}
use mathlib.Core.Option.{some_inj}
use mathlib.Core.Path.{ap}
use integration_home_assista.Prelude.{
  ℕ, String, true, false, Option, none, some, is_some, ◌||◌, ◌≡◌, refl, arith, sym, ◌∙◌,
  Option-cases, inl, inr,
}
use integration_home_assista.Prelude.Dict.{lookup, insert, modify}
use integration_home_assista.Json.{Value}
use integration_home_assista.Platform.{Platform}
use integration_home_assista.Api.{Codec, R2Event, R2Response, runtime_info, version, other_response}
use integration_home_assista.Api
use integration_home_assista.Controller.Messages.{connect_msg}
use integration_home_assista.Controller.State.{
  World, Controller, R2Session, new_session, new_msg_id, notify,
}
use integration_home_assista.Controller.Sessions.{
  new_r2_session, request_version, r2_event, on_event, r2_response, store_remote_id, tell_remote_id,
  unwrap_object, set_standby,
}
use integration_home_assista.Controller.Sessions.Kept.{
  sessions-send_device_state, sessions-try_send_r2, sessions-try_send_ha,
}
use integration_home_assista.Controller.Sessions.Known.{knows, is_some-modify, is_some-insert}

module _ {p : Platform} (w : World p) (key : String) where
  knows-request_version :
      (id : String) (o : Option R2Session) (c : Controller p)
      → lookup id c.sessions ≡ o
      → knows key (request_version w id o c) ≡ knows key c
  unfolding request_version
  knows-request_version id none c e = refl
  knows-request_version id (some s) c e =
      let noted = insert id (new_msg_id s).0 c.sessions in
      ap (λ d. is_some (lookup key d))
        (sessions-try_send_r2 w s.recipient _ (record c { sessions = noted }))
      ∙ ground (arith, e, is_some-insert key id (new_msg_id s).0 c.sessions, eq_iff id key)

  pub knows-new_r2_session :
      (id : String) (addr : ℕ) (c : Controller p)
      → knows key (new_r2_session w id addr c) ≡ (id == key || knows key c)
  unfolding new_r2_session
  knows-new_r2_session id addr c =
      knows-request_version id _ _ refl
      ∙ ap (λ d. is_some (lookup key d)) (sessions-send_device_state w id _)
      ∙ is_some-insert key id (new_session addr) c.sessions

  knows-on_event :
      (id : String) (e : R2Event) (c : Controller p) → knows key (on_event w id e c) ≡ knows key c
  unfolding on_event
  knows-on_event id Api.connect c = ground (
    arith,
    sessions-send_device_state w id c,
    sessions-send_device_state w id (notify connect_msg c),
  )
  knows-on_event id Api.disconnect c = refl
  knows-on_event id Api.enter_standby c =
      ground (arith, is_some-modify key id (set_standby true) c.sessions)
  knows-on_event id Api.exit_standby c =
      let noted = modify id (set_standby false) c.sessions in
      ground (
        arith,
        sessions-send_device_state w id (notify connect_msg (record c { sessions = noted })),
        is_some-modify key id (set_standby false) c.sessions,
      )
  knows-on_event id Api.abort_driver_setup c = refl

  pub knows-r2_event :
      (id : String) (e : R2Event) (c : Controller p) → knows key (r2_event w id e c) ≡ knows key c
  unfolding r2_event
  knows-r2_event id e c = ground (arith, knows-on_event id e c)

  knows-tell_remote_id :
      (o : Option ℕ) (c : Controller p) → knows key (tell_remote_id w o c) ≡ knows key c
  unfolding tell_remote_id
  knows-tell_remote_id none c = refl
  knows-tell_remote_id (some addr) c =
      ap (λ d. is_some (lookup key d)) (sessions-try_send_ha w addr _ c)

  knows-store_remote_id :
      (o : Option String) (c : Controller p) → knows key (store_remote_id w o c) ≡ knows key c
  unfolding store_remote_id
  knows-store_remote_id none c = refl
  knows-store_remote_id (some name) c =
      knows-tell_remote_id c.ha_client (record c { remote_id = name })

  pub knows-r2_response :
      (r : R2Response) (data_ : Option (Value p.F64)) (c d : Controller p)
      → r2_response w r data_ c ≡ some d
      → knows key d ≡ knows key c
  unfolding r2_response
  knows-r2_response runtime_info data_ c d e = ground (arith, e)
  knows-r2_response other_response data_ c d e = ground (arith, e)
  knows-r2_response version data_ c d e = elim (Option-cases (unwrap_object w data_)) [
    | inl q ↦ cc
    | inr (fs, q) ↦
        ap (knows key) (sym (some_inj.0 (rw (q, r2_response) at e))) ∙ knows-store_remote_id _ c
  ]
