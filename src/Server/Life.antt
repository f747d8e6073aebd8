-- ===== src/Server/Life.antt =====
-- src/server/ws/connection.rs: the life of a connection, from its first frame to its end, with the
-- messages `TextMsg` that it sends to itself.
pub mod Ends
pub mod Own
pub mod Told
use integration_home_assista.Prelude.{
  ℕ, String, Bool, true, false, Option, none, some, List, [], ◌∷◌, ◌++◌, ◌≤◌, ◌-◌, if◌then◌else◌,
}
use integration_home_assista.Platform.{Platform}
use integration_home_assista.Api.{Codec}
use integration_home_assista.Controller.State.{World, Controller}
use integration_home_assista.Controller.Step.{Message, handle, request_message}
use integration_home_assista.Server.{
  WsConn, Names, Frame, Effect, Outgoing, write, stop_actor, text_msg, to_controller, unsupported,
  close_conn, end_session, receive_frame, send_heartbeat, registered,
}
use integration_home_assista.Server.Messages.{
  Handling, asks, answers, handle_decoded, id_or_default, answer,
}

-- What happens to a connection: a frame arrives or the interval has passed, with the time; the actor
-- takes the first `TextMsg` to itself, with what the mailbox of the controller accepts; the controller
-- has answered the registration, or the mailbox has failed; the future of a request has its answer.
pub data ConnInput (p : Platform) : Type 0 where
  frame_input : ℕ → Frame → ConnInput p
  interval_input : ℕ → ConnInput p
  text_input : (Message p → Bool) → ConnInput p
  registered_input : Bool → ConnInput p
  answer_input : Outgoing p → ConnInput p

-- A connection that is open with what it did and the texts that it has not handled, or that has ended.
pub data Life (p : Platform) : Type 0 where
  open_conn : List (Effect p) → WsConn → List String → Life p
  ended : List (Effect p) → Life p

module _ {p : Platform} where
  abbrev pub written : Option (Outgoing p) → List (Effect p)
  written none = []
  written (some out) = write out ∷ []

  -- A request is sent to the controller, and its answer comes later; all else is answered at once.
  unfoldable pub begin_handling : ℕ → Handling p → List (Effect p)
  begin_handling id (asks r) = to_controller (request_message r) ∷ []
  begin_handling id (answers r sent) = sent ++ written (answer id r)

  -- The texts that a frame leaves for the actor itself.
  abbrev pub texts_of : List (Effect p) → List String
  texts_of [] = []
  texts_of (text_msg t ∷ es) = t ∷ texts_of es
  texts_of (_ ∷ es) = texts_of es

  abbrev is_stop : Effect p → Bool
  is_stop stop_actor = true
  is_stop _ = false

  abbrev pub stops : List (Effect p) → Bool
  stops [] = false
  stops (e ∷ es) = if is_stop e then true else stops es

  abbrev pub after : List (Effect p) → Life p → Life p
  after done (open_conn later conn texts) = open_conn (done ++ later) conn texts
  after done (ended later) = ended (done ++ later)

module _ {p : Platform} (names : Names p) where
  -- `Handler<TextMsg>`, up to the answer of the controller to a request.
  unfoldable pub receive_text : (Message p → Bool) → String → WsConn → List (Effect p)
  receive_text accepts t conn = elim (names.decode t) [
    | none ↦ close_conn unsupported "Invalid JSON message"
    | some m ↦ begin_handling (id_or_default m.id) (handle_decoded names accepts conn.id m)
  ]

  abbrev first_text :
      (Message p → Bool) → List String → WsConn → List (Effect p) × WsConn × List String
  first_text accepts [] conn = ([], conn, [])
  first_text accepts (t ∷ texts) conn = (receive_text accepts t conn, conn, texts)

  -- What an input does, with the connection and the texts that are left.
  unfoldable pub react : ConnInput p → WsConn → List String → List (Effect p) × WsConn × List String
  unfolding receive_frame send_heartbeat registered
  react (frame_input now f) conn texts =
      let (done, conn') = receive_frame now f conn in (done, conn', texts ++ texts_of done)
  react (interval_input now) conn texts = (send_heartbeat now conn, conn, texts)
  react (text_input accepts) conn texts = first_text accepts texts conn
  react (registered_input ok) conn texts = (registered ok, conn, texts)
  react (answer_input out) conn texts = (write out ∷ [], conn, texts)

  -- `ctx.stop()` ends the actor: Actix calls `stopping`, and no input is handled any more.
  unfoldable pub live : WsConn → List String → List (ConnInput p) → Life p
  unfolding react end_session
  live conn texts [] = open_conn [] conn texts
  live conn texts (i ∷ inputs) =
      let (done, conn', texts') = react i conn texts in
      let rest = after done (live conn' texts' inputs) in
      if stops done then ended (done ++ end_session conn') else rest

module _ {p : Platform} (codec : Codec p) (w : World p) where
  -- The messages of a connection, handled by the controller in their order; `none` is its panic.
  unfoldable pub deliver : List (Effect p) → Controller p → Option (Controller p)
  deliver [] c = some c
  deliver (to_controller m ∷ es) c = elim (handle codec w m c) [
    | none ↦ none
    | some c' ↦ deliver es c'
  ]
  deliver (_ ∷ es) c = deliver es c
