-- ===== src/Server/Life/Told.antt =====
-- src/server/ws/connection.rs: what the controller knows once a connection has ended.
use mathlib.Core.Path.{subst}
use integration_home_assista.Prelude.{
  String, Bool, true, false, some, List, [], ◌∷◌, ◌≡◌, ◌≢◌, refl, arith, All, sym, ◌∙◌,
}
use integration_home_assista.Platform.{Platform}
use integration_home_assista.Api.{Codec}
use integration_home_assista.Controller.State.{World, Controller}
use integration_home_assista.Controller.Sessions.Known.{knows}
use integration_home_assista.Controller.Step.{
  Message, handle, session_disconnect_msg, request_message, event_msg, response_msg,
  new_session_msg, connection_msg, entity_msg, available_msg, set_available_msg,
  setup_driver_message, user_data_message, subscribe_message, unsubscribe_message,
}
use integration_home_assista.Server.{WsConn, Names, Effect, to_controller}
use integration_home_assista.Server.Life.{ConnInput, Life, open_conn, ended, live, deliver}
use integration_home_assista.Server.Life.Own.{others_open, delivered, IsToldOf, told, live-IsToldOf}

module _ {p : Platform} (codec : Codec p) (w : World p) (names : Names p) where
  forgotten :
      (l : Life p) (id : String) (es : List (Effect p)) (c d : Controller p)
      → IsToldOf names id l
      → l ≡ ended es
      → deliver codec w es c ≡ some d
      → (knows id d ≡ false) × ((other : String) → other ≢ id → knows other d ≡ knows other c)
  forgotten (ended fs) id es c d (told _ h t) e r =
      let k : fs ≡ es = cc in
      let r' = subst (λ x. deliver codec w x c ≡ some d) (sym k) r in
      (
        delivered codec w id fs c d r' ∙ t (knows id c),
        λ other n. delivered codec w other fs c d r' ∙ others_open id other fs (knows other c) h n,
      )
  forgotten (open_conn fs conn texts) id es c d h e r = absurd (ground arith)

  -- Only the handling of a response can panic.
  abbrev no_response : Message p → Bool
  no_response (response_msg _ _) = false
  no_response _ = true

  abbrev NoResponse : Effect p → Type 0
  NoResponse (to_controller m) = no_response m ≡ true
  NoResponse _ = Unit {0}

  handle-total :
      (m : Message p) (c : Controller p)
      → no_response m ≡ true
      → (d : Controller p) × (handle codec w m c ≡ some d)
  unfolding handle
  handle-total (response_msg _ _) c h = absurd (ground arith)
  handle-total (new_session_msg _ _) c h = (_, refl)
  handle-total (session_disconnect_msg _) c h = (_, refl)
  handle-total (event_msg _ _) c h = (_, refl)
  handle-total (request_message _) c h = (_, refl)
  handle-total (connection_msg _ _) c h = (_, refl)
  handle-total (entity_msg _) c h = (_, refl)
  handle-total (available_msg _) c h = (_, refl)
  handle-total (set_available_msg _) c h = (_, refl)
  handle-total (setup_driver_message _ _) c h = (_, refl)
  handle-total (user_data_message _ _) c h = (_, refl)
  handle-total (subscribe_message _ _) c h = (_, refl)
  handle-total (unsubscribe_message _ _) c h = (_, refl)

  deliver-total :
      (es : List (Effect p)) (c : Controller p)
      → All NoResponse es
      → (d : Controller p) × (deliver codec w es c ≡ some d)
  unfolding deliver
  deliver-total [] c h = (c, refl)
  deliver-total (to_controller m ∷ es) c (k, h) =
      let (c', q) = handle-total m c k in
      let (d, r) = deliver-total es c' h in (d, rw (q, deliver) r)
  deliver-total (_ ∷ es) c (k, h) = deliver-total es c h

  -- However a connection ends, by a frame, an error, an invalid text, a registration that failed or a
  -- missing sign of life: once the controller has handled all that the connection sent, it has no
  -- session of the connection, and of every other remote a session exactly if it had one before. It
  -- handles all without a panic, where the connection has passed on no response of the remote.
  pub live-forgets :
      (conn : WsConn) (texts : List String) (inputs : List (ConnInput p)) (es : List (Effect p))
      (c : Controller p)
      → live names conn texts inputs ≡ ended es
      → ((d : Controller p)
          → deliver codec w es c ≡ some d
          → (knows conn.id d ≡ false)
            × ((other : String) → other ≢ conn.id → knows other d ≡ knows other c))
        × (All NoResponse es → (d : Controller p) × (deliver codec w es c ≡ some d))
  live-forgets conn texts inputs es c e = (
    λ d r.
        forgotten (live names conn texts inputs) conn.id es c d
          (live-IsToldOf names inputs conn texts) e r,
    deliver-total es c,
  )
