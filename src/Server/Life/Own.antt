-- ===== src/Server/Life/Own.antt =====
-- src/server/ws/connection.rs: the messages that a connection sends to the controller are about its own
-- session, and after those of a connection that has ended the session is not open.
use mathlib.Core.Path.{subst}
use integration_home_assista.Prelude.{
  ℕ, String, Bool, true, false, Option, none, some, List, [], ◌∷◌, ◌++◌, ◌≡◌, ◌≢◌, refl, arith, All,
  All-append, if_keep, str_eq, ltb, ◌*◌, ◌-◌, ap, ◌∙◌, Option-cases, inl, inr, eq_iff,
}
use integration_home_assista.Platform.{Platform}
use integration_home_assista.Errors.{Result, ok, err}
use integration_home_assista.Controller.Requests.{R2RequestMsg}
use integration_home_assista.Api.{Codec}
use integration_home_assista.Controller.State.{World, Controller}
use integration_home_assista.Controller.Sessions.Known.{knows}
use integration_home_assista.Controller.Sessions.History.{open_after, knows-handle}
use integration_home_assista.Controller.Step.{
  Message, handle, session_disconnect_msg, request_message, event_msg, response_msg,
}
use integration_home_assista.Server.{
  WsConn, Names, IncomingMessage, text, binary, ping, pong, close, continuation, nop,
  protocol_error, Effect, Outgoing, write_ping, stop_actor, to_controller, end_session,
}
use integration_home_assista.Server.Messages.{
  Handling, asks, answers, asked, passed_on, handle_decoded, id_or_default, on_request_msg,
  on_event_msg, on_response_msg, answer,
}
use integration_home_assista.Server.Life.{
  ConnInput, frame_input, interval_input, text_input, registered_input, answer_input, Life,
  open_conn, ended, written, begin_handling, receive_text, react, stops, after, live, deliver,
}

module _ {p : Platform} where
  -- Whether a message is no message of a server about the sessions but the end of that with the id.
  abbrev pub is_own : String → Message p → Bool
  is_own id (session_disconnect_msg other) = str_eq other id
  is_own id (request_message _) = true
  is_own id (event_msg _ _) = true
  is_own id (response_msg _ _) = true
  is_own id _ = false

  abbrev pub IsOwn : String → Effect p → Type 0
  IsOwn id (to_controller m) = is_own id m ≡ true
  IsOwn id _ = Unit {0}

  -- Whether the session of a remote is open after the effects, given whether it was.
  abbrev pub open_after_all : String → List (Effect p) → Bool → Bool
  open_after_all key [] b = b
  open_after_all key (to_controller m ∷ es) b = open_after_all key es (open_after key m b)
  open_after_all key (_ ∷ es) b = open_after_all key es b

  open_after_all-append :
      (key : String) (es fs : List (Effect p)) (b : Bool)
      → open_after_all key (es ++ fs) b ≡ open_after_all key fs (open_after_all key es b)
  open_after_all-append key [] fs b = refl
  open_after_all-append key (to_controller m ∷ es) fs b =
      open_after_all-append key es fs (open_after key m b)
  open_after_all-append key (_ ∷ es) fs b = open_after_all-append key es fs b

  own-other :
      (id key : String) (m : Message p) (b : Bool)
      → is_own id m ≡ true
      → key ≢ id
      → open_after key m b ≡ b
  own-other id key (session_disconnect_msg other) b h n =
      ground (arith, eq_iff other id, eq_iff other key)
  own-other id key (request_message _) b h n = refl
  own-other id key (event_msg _ _) b h n = refl
  own-other id key (response_msg _ _) b h n = refl
  own-other id key _ b h n = absurd (ground arith)

  pub others_open :
      (id key : String) (es : List (Effect p)) (b : Bool)
      → All (IsOwn id) es
      → key ≢ id
      → open_after_all key es b ≡ b
  others_open id key [] b h n = refl
  others_open id key (to_controller m ∷ es) b (k, h) n =
      others_open id key es _ h n ∙ own-other id key m b k n
  others_open id key (_ ∷ es) b (k, h) n = others_open id key es b h n

module _ {p : Platform} (codec : Codec p) (w : World p) where
  pub delivered :
      (key : String) (es : List (Effect p)) (c d : Controller p)
      → deliver codec w es c ≡ some d
      → knows key d ≡ open_after_all key es (knows key c)
  unfolding deliver
  delivered key [] c d e = ground arith
  delivered key (to_controller m ∷ es) c d e = elim (Option-cases (handle codec w m c)) [
    | inl q ↦ absurd (ground arith)
    | inr (c', q) ↦
        delivered key es c' d (ground arith)
        ∙ ap (open_after_all key es) (knows-handle codec w key m c c' q)
  ]
  delivered key (_ ∷ es) c d e = delivered key es c d e

module _ {p : Platform} (names : Names p) where
  -- A handling whose messages for the controller are own ones.
  abbrev HandlesOwn : String → Handling p → Type 0
  HandlesOwn id (asks r) = Unit {0}
  HandlesOwn id (answers r sent) = All (IsOwn id) sent

  abbrev OkOwn : String → Result (List (Effect p)) → Type 0
  OkOwn id (err e) = Unit {0}
  OkOwn id (ok es) = All (IsOwn id) es

  passed_on-HandlesOwn :
      (id : String) (r : Result (List (Effect p))) → OkOwn id r → HandlesOwn id (passed_on names r)
  passed_on-HandlesOwn id (err e) h = tt
  passed_on-HandlesOwn id (ok es) h = h

  asked-HandlesOwn : (id : String) (r : Result (R2RequestMsg p)) → HandlesOwn id (asked names r)
  asked-HandlesOwn id (err e) = tt
  asked-HandlesOwn id (ok r) = tt

  written-IsOwn : (id : String) (out : Option (Outgoing p)) → All (IsOwn id) (written out)
  written-IsOwn id none = tt
  written-IsOwn id (some out) = (tt, tt)

  begin_handling-IsOwn :
      (id : String) (n : ℕ) (h : Handling p) → HandlesOwn id h → All (IsOwn id) (begin_handling n h)
  unfolding begin_handling
  begin_handling-IsOwn id n (asks r) k = (refl, tt)
  begin_handling-IsOwn id n (answers r sent) k =
      All-append (IsOwn id) sent (written (answer n r)) k (written-IsOwn id (answer n r))

  event-OkOwn :
      (accepts : Message p → Bool) (id : String) (m : IncomingMessage p)
      → OkOwn id (on_event_msg names accepts id m)
  unfolding on_event_msg
  event-OkOwn accepts id m = elim (Option-cases m.msg) [
    | inl q ↦ rw (q, on_event_msg) tt
    | inr (name, q) ↦ elim (Option-cases (names.event_from_str name)) [
      | inl r ↦ rw (q, r, on_event_msg) tt
      | inr (e, r) ↦
          rw (q, r, on_event_msg)
            (if_keep (All (IsOwn id)) (accepts (event_msg id e))
              {x = to_controller (event_msg id e) ∷ []} {y = []} (refl, tt) tt)
    ]
  ]

  response-OkOwn :
      (accepts : Message p → Bool) (id : String) (m : IncomingMessage p)
      → OkOwn id (on_response_msg names accepts m)
  unfolding on_response_msg
  response-OkOwn accepts id m = elim (Option-cases m.msg) [
    | inl q ↦ rw (q, on_response_msg) tt
    | inr (name, q) ↦ elim (Option-cases (names.response_from_str name)) [
      | inl r ↦ rw (q, r, on_response_msg) tt
      | inr (x, r) ↦
          rw (q, r, on_response_msg)
            (if_keep (All (IsOwn id)) (accepts (response_msg x m.msg_data))
              {x = to_controller (response_msg x m.msg_data) ∷ []} {y = []} (refl, tt) tt)
    ]
  ]

  handled-IsOwn :
      (accepts : Message p → Bool) (id : String) (m : IncomingMessage p)
      → HandlesOwn id (handle_decoded names accepts id m)
  unfolding handle_decoded
  handled-IsOwn accepts id m = elim (Option-cases m.kind) [
    | inl q ↦ rw (q, handle_decoded) tt
    | inr (k, q) ↦
        rw (q, handle_decoded)
          (if_keep (HandlesOwn id) (str_eq k "req")
            (asked-HandlesOwn id (on_request_msg names id m))
            (if_keep (HandlesOwn id) (str_eq k "resp")
              (passed_on-HandlesOwn id _ (response-OkOwn accepts id m))
              (if_keep (HandlesOwn id) (str_eq k "event")
                (passed_on-HandlesOwn id _ (event-OkOwn accepts id m)) tt)))
  ]

  text-IsOwn :
      (accepts : Message p → Bool) (t : String) (conn : WsConn)
      → All (IsOwn conn.id) (receive_text names accepts t conn)
  unfolding receive_text
  text-IsOwn accepts t conn = elim (Option-cases (names.decode t)) [
    | inl q ↦ rw (q, receive_text) (tt, (tt, tt))
    | inr (m, q) ↦
        rw (q, receive_text)
          (begin_handling-IsOwn conn.id (id_or_default m.id) _ (handled-IsOwn accepts conn.id m))
  ]

  react-IsOwn :
      (i : ConnInput p) (conn : WsConn) (texts : List String)
      → All (IsOwn conn.id) (react names i conn texts).0
  unfolding react
  react-IsOwn (frame_input now (text _)) conn texts = (tt, tt)
  react-IsOwn (frame_input now (binary _)) conn texts = (tt, (tt, tt))
  react-IsOwn (frame_input now (ping _)) conn texts = (tt, tt)
  react-IsOwn (frame_input now (pong _)) conn texts = tt
  react-IsOwn (frame_input now close) conn texts = (tt, tt)
  react-IsOwn (frame_input now continuation) conn texts = (tt, (tt, tt))
  react-IsOwn (frame_input now nop) conn texts = tt
  react-IsOwn (frame_input now protocol_error) conn texts = (tt, tt)
  react-IsOwn (interval_input now) conn texts =
      if_keep (All (IsOwn conn.id)) (ltb (conn.heartbeat.timeout * 1000) (now - conn.hb))
        {x = to_controller (session_disconnect_msg conn.id) ∷ stop_actor ∷ []} {y = write_ping ∷ []}
        (ground (arith, eq_iff conn.id conn.id), (tt, tt)) (tt, tt)
  react-IsOwn (text_input accepts) conn [] = tt
  react-IsOwn (text_input accepts) conn (t ∷ texts) = text-IsOwn accepts t conn
  react-IsOwn (registered_input true) conn texts = tt
  react-IsOwn (registered_input false) conn texts = (tt, tt)
  react-IsOwn (answer_input out) conn texts = (tt, tt)

  react-id :
      (i : ConnInput p) (conn : WsConn) (texts : List String)
      → (react names i conn texts).1.id ≡ conn.id
  unfolding react
  react-id (frame_input now (ping _)) conn texts = refl
  react-id (frame_input now (pong _)) conn texts = refl
  react-id (frame_input now _) conn texts = refl
  react-id (interval_input now) conn texts = refl
  react-id (text_input accepts) conn [] = refl
  react-id (text_input accepts) conn (t ∷ texts) = refl
  react-id (registered_input known) conn texts = refl
  react-id (answer_input out) conn texts = refl

  end_session-IsOwn : (conn : WsConn) → All (IsOwn {p = p} conn.id) (end_session conn)
  unfolding end_session
  end_session-IsOwn conn = (ground (arith, eq_iff conn.id conn.id), tt)

  closed_after :
      (conn : WsConn) (b : Bool) → open_after_all {p = p} conn.id (end_session conn) b ≡ false
  unfolding end_session
  closed_after conn b = ground (arith, eq_iff conn.id conn.id)

  -- What a connection with the id that has ended did: its messages are own ones, and after them its
  -- session is not open.
  pub data IsToldOf (id : String) : Life p → Type 0 where
    told :
        (es : List (Effect p))
        → All (IsOwn id) es
        → ((b : Bool) → open_after_all id es b ≡ false)
        → IsToldOf id (ended es)
    still_open :
        (es : List (Effect p)) (conn : WsConn) (texts : List String)
        → IsToldOf id (open_conn es conn texts)

  after-IsToldOf :
      (id : String) (done : List (Effect p)) (l : Life p)
      → All (IsOwn id) done
      → IsToldOf id l
      → IsToldOf id (after done l)
  after-IsToldOf id done (ended es) h (told _ k t) =
      told (done ++ es) (All-append (IsOwn id) done es h k)
        (λ b. open_after_all-append id done es b ∙ t (open_after_all id done b))
  after-IsToldOf id done (open_conn es conn texts) h k = still_open (done ++ es) conn texts

  pub live-IsToldOf :
      (inputs : List (ConnInput p)) (conn : WsConn) (texts : List String)
      → IsToldOf conn.id (live names conn texts inputs)
  unfolding live
  live-IsToldOf [] conn texts = still_open [] conn texts
  live-IsToldOf (i ∷ inputs) conn texts =
      let r = react names i conn texts in
      let same = react-id i conn texts in
      let says = react-IsOwn i conn texts in
      if_keep (IsToldOf conn.id) (stops r.0)
        (told (r.0 ++ end_session r.1)
          (All-append (IsOwn conn.id) r.0 (end_session r.1) says
            (subst (λ d. All (IsOwn d) (end_session {p = p} r.1)) same (end_session-IsOwn r.1)))
          (λ b.
            open_after_all-append conn.id r.0 (end_session r.1) b
            ∙ subst
                (λ d.
                  open_after_all {p = p} d (end_session r.1) (open_after_all conn.id r.0 b) ≡ false)
                same (closed_after r.1 (open_after_all conn.id r.0 b))))
        (after-IsToldOf conn.id r.0 (live names r.1 r.2 inputs) says
          (subst (λ d. IsToldOf d (live names r.1 r.2 inputs)) same (live-IsToldOf inputs r.1 r.2)))
