-- ===== src/Service/Call/Answers.antt =====
-- The answer of a service call, and what it writes.
use integration_home_assista.Prelude.{
  ℕ, ◌+◌, ◌%◌, ◌^◌, ◌≡◌, Bool, true, false, String, none, some, arith,
}
use integration_home_assista.Platform.{Platform}
use integration_home_assista.Errors.{ok, err, is_ok, not_connected}
use integration_home_assista.Api.{EntityCommand}
use integration_home_assista.Service.Commands.{CommandNames}
use integration_home_assista.Service.Call.{
  CallServiceMsg, Called, convert, write_call, call_entity, call_result, call_service,
}

module _ {p : Platform} (names : CommandNames) (lower : String → String) where
  -- Where the handler does not panic: it answers with success exactly if a message was written. The
  -- message has a new id, names the entity of the command, and carries the converted service. Where
  -- nothing was written, either the actor stops, because the socket is closed, or the id is not used.
  pub call_service_lem :
      (writes : Bool) (ws_id : ℕ) (msg : EntityCommand p) (r : Called p)
      → call_service names lower writes ws_id msg ≡ some r
      → ((m : CallServiceMsg p)
          → r.written ≡ some m
          → (r.answer ≡ ok tt)
            × (m.id ≡ (ws_id + 1) % 2 ^ 32)
            × (r.ws_id ≡ m.id)
            × (m.entity_id ≡ msg.entity_id)
            × (convert names lower msg.entity_type msg ≡ some (ok (m.service, m.service_data))))
        × (r.written ≡ none
            → (is_ok r.answer ≡ false)
              × (r.stopped ≡ true → r.answer ≡ err not_connected)
              × (r.stopped ≡ false → r.ws_id ≡ ws_id))
  unfolding call_service call_result call_entity write_call
  call_service_lem writes ws_id msg r e = ground arith
