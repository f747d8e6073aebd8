-- ===== src/Server/Exchange.antt =====
-- src/server/ws with the request handler of the controller: the answer to a message of a remote.
use Prim.Native.String.{◌++◌ as join}
use mathlib.Core.Path.{subst}
use mathlib.Core.Option.{some_inj}
use integration_home_assista.Prelude.{
  ℕ, String, Bool, Option, none, some, List, [], ◌≡◌, ◌≢◌, ◌⊎◌, refl, inl, inr, arith, Option-cases,
  if_keep, not, str_eq, ◌||◌, ◌&&◌, is_some, if◌then◌else◌,
}
use integration_home_assista.Errors.{ServiceError, Result, ok, err, bad_request}
use integration_home_assista.Platform.{Platform}
use integration_home_assista.Api.{DeviceState, Codec}
use integration_home_assista.Controller.Messages.{WsMessage}
use integration_home_assista.Controller.State.{World, Controller}
use integration_home_assista.Controller.Step.{Message}
use integration_home_assista.Controller.Requests.{R2RequestMsg, Reply, ready, waits, request_msg}
use integration_home_assista.Server.{
  IncomingMessage, Names, Outgoing, error_message, Effect, service_error_to_ws_message,
}
use integration_home_assista.Server.Messages.{
  Handling, asks, answers, on_request_msg, on_event_msg, on_response_msg, asked, passed_on,
  handle_decoded, id_or_default, answer, reply_result, end_handling, exchange,
}
use integration_home_assista.Server.Answers.{
  IsAnswer, IsReply, no_answer, replied, refused, waiting, error-IsAnswer, request_msg-IsReply,
  finish_request-IsReply,
}

-- What is wrong with a message, before the controller sees it.
abbrev pub problem : {p : Platform} → Names p → IncomingMessage p → Option String
problem names m = elim m.kind [
  | none ↦ some "Missing property: kind"
  | some k ↦
      if str_eq k "req" && not (is_some m.id)
      then some "Missing property: id"
      else if not (str_eq k "req" || str_eq k "resp" || str_eq k "event")
      then some (join "Unsupported message kind: " k)
      else elim m.msg [
        | none ↦ some "Missing property: msg"
        | some name ↦
            if str_eq k "req" && not (is_some (names.request_from_str name))
            then some (join "Unknown message: " name)
            else none
      ]
]

-- A handling of the message with the id: a request that keeps the id, or a result without a message.
data IsHandled {p : Platform} (id : ℕ) : Handling p → Type 0 where
  keeps_id : (r : R2RequestMsg p) → r.req_id ≡ id → IsHandled id (asks r)
  fails_at_once : (e : ServiceError) (sent : List (Effect p)) → IsHandled id (answers (err e) sent)
  passes : (sent : List (Effect p)) → IsHandled id (answers (ok none) sent)

module _ {p : Platform} (names : Names p) where
  on_request_msg-req_id :
      (session_id : String) (m : IncomingMessage p) (r : R2RequestMsg p)
      → on_request_msg names session_id m ≡ ok r
      → r.req_id ≡ id_or_default m.id
  unfolding on_request_msg
  on_request_msg-req_id session_id m r e = ground arith

  asked-IsHandled :
      (id : ℕ) (request : Result (R2RequestMsg p))
      → ((r : R2RequestMsg p) → request ≡ ok r → r.req_id ≡ id)
      → IsHandled id (asked names request)
  asked-IsHandled id (err e) h = fails_at_once e []
  asked-IsHandled id (ok r) h = keeps_id r (h r refl)

  passed_on-IsHandled :
      (id : ℕ) (sent : Result (List (Effect p))) → IsHandled id (passed_on names sent)
  passed_on-IsHandled id (err e) = fails_at_once e []
  passed_on-IsHandled id (ok sent) = passes sent

  handle_decoded-IsHandled :
      (accepts : Message p → Bool) (session_id : String) (m : IncomingMessage p)
      → IsHandled (id_or_default m.id) (handle_decoded names accepts session_id m)
  unfolding handle_decoded
  handle_decoded-IsHandled accepts session_id m = elim (Option-cases m.kind) [
    | inl q ↦ rw (q, handle_decoded) (fails_at_once _ _)
    | inr (k, q) ↦
        rw (q, handle_decoded)
          (let Goal : Handling p → Type 0 = IsHandled (id_or_default m.id) in
            if_keep Goal (str_eq k "req")
              (asked-IsHandled _ (on_request_msg names session_id m)
                (on_request_msg-req_id session_id m))
              (if_keep Goal (str_eq k "resp")
                (passed_on-IsHandled _ (on_response_msg names accepts m))
                (if_keep Goal (str_eq k "event")
                  (passed_on-IsHandled _ (on_event_msg names accepts session_id m))
                  (fails_at_once _ _))))
  ]

module _ {p : Platform} {id : ℕ} {state : DeviceState} where
  reply_result-IsReply :
      (reply : Reply p) (task : Result (Unit {0}))
      → IsReply id state reply
      → IsReply id state (ready (reply_result reply task))
  unfolding reply_result
  reply_result-IsReply (ready r) task h = h
  reply_result-IsReply (waits t id name) task (waiting _ _) =
      finish_request-IsReply t id name task state

  answer-IsAnswer :
      (r : Result (Option (WsMessage p))) (out : Outgoing p)
      → IsReply id state (ready r)
      → answer id r ≡ some out
      → IsAnswer id state out
  unfolding answer
  answer-IsAnswer (ok none) out h e = ground arith
  answer-IsAnswer (ok (some m)) out (replied _ h) e = subst (IsAnswer id state) (some_inj.0 e) h
  answer-IsAnswer (err x) out h e =
      subst (IsAnswer id state) (some_inj.0 e) (error-IsAnswer id state x)

module _ {p : Platform} (codec : Codec p) (w : World p) (names : Names p) where
  refused_at_once :
      (accepts : Message p → Bool) (session_id : String) (m : IncomingMessage p) (text : String)
      → problem names m ≡ some text
      → handle_decoded names accepts session_id m ≡ answers (err (bad_request text)) []
  unfolding handle_decoded on_request_msg on_event_msg on_response_msg
  refused_at_once accepts session_id m text e = ground arith

  refused-end_handling :
      (id : ℕ) (text : String) (task : Result (Unit {0})) (c : Controller p)
      → end_handling codec w names id (answers (err (bad_request text)) []) task c
        ≡ (some (error_message id 400 "BAD_REQUEST" text), [], c)
  unfolding end_handling answer service_error_to_ws_message
  refused-end_handling id text task c = refl

  asks-IsAnswer :
      (r : R2RequestMsg p) (id : ℕ) (task : Result (Unit {0})) (c : Controller p) (out : Outgoing p)
      → r.req_id ≡ id
      → answer id (reply_result (request_msg codec w r c).0 task) ≡ some out
      → IsAnswer id c.device_state out
  asks-IsAnswer r id task c out q e =
      answer-IsAnswer _ out
        (reply_result-IsReply _ task (
          subst (λ i. IsReply i c.device_state (request_msg codec w r c).0) q
            (request_msg-IsReply codec w r c)))
        e

  handled-IsAnswer :
      (h : Handling p) (id : ℕ) (task : Result (Unit {0})) (c : Controller p) (out : Outgoing p)
      → IsHandled id h
      → (end_handling codec w names id h task c).0 ≡ some out
      → IsAnswer id c.device_state out
  unfolding end_handling
  handled-IsAnswer (asks r) id task c out (keeps_id _ q) e = asks-IsAnswer r id task c out q e
  handled-IsAnswer (answers (err x) sent) id task c out h e =
      answer-IsAnswer (err x) out (refused x) e
  handled-IsAnswer (answers (ok none) sent) id task c out h e =
      answer-IsAnswer (ok none) out no_answer e
  handled-IsAnswer (answers (ok (some _)) sent) id task c out h e = elim h [ ]

  passed_on_silently :
      (accepts : Message p → Bool) (session_id : String) (m : IncomingMessage p)
      (task : Result (Unit {0})) (c : Controller p)
      → (m.kind ≡ some "event") ⊎ (m.kind ≡ some "resp")
      → m.msg ≢ none
      → ((exchange codec w names accepts session_id m task c).0 ≡ none)
        × ((exchange codec w names accepts session_id m task c).2 ≡ c)
  unfolding exchange end_handling handle_decoded on_event_msg on_response_msg answer
  passed_on_silently accepts session_id m task c (inl k) n = (ground arith, ground arith)
  passed_on_silently accepts session_id m task c (inr k) n = (ground arith, ground arith)

  -- A message with a `problem` never reaches the controller and is answered by the error 400 with the
  -- text of the problem: a kind that is missing or unknown, a missing name, and for a request a
  -- missing id or an unknown name. Whatever is answered to any message is an error between 400 and
  -- 503, or a response with the id of the message, 0 if it has none, or the state of the device. An
  -- event or a response with a name, known or not, is not answered, and changes nothing before the
  -- controller handles what is passed on.
  pub exchange_lem :
      (accepts : Message p → Bool) (session_id : String) (m : IncomingMessage p)
      (task : Result (Unit {0})) (c : Controller p)
      → ((text : String)
          → problem names m ≡ some text
          → exchange codec w names accepts session_id m task c
            ≡ (some (error_message (id_or_default m.id) 400 "BAD_REQUEST" text), [], c))
        × ((out : Outgoing p)
            → (exchange codec w names accepts session_id m task c).0 ≡ some out
            → IsAnswer (id_or_default m.id) c.device_state out)
        × ((m.kind ≡ some "event") ⊎ (m.kind ≡ some "resp")
            → m.msg ≢ none
            → ((exchange codec w names accepts session_id m task c).0 ≡ none)
              × ((exchange codec w names accepts session_id m task c).2 ≡ c))
  unfolding exchange
  exchange_lem accepts session_id m task c = (
    λ text e. rw (refused_at_once accepts session_id m text e) (refused-end_handling _ text task c),
    λ out e.
        handled-IsAnswer _ _ task c out (handle_decoded-IsHandled names accepts session_id m) e,
    passed_on_silently accepts session_id m task c,
  )
