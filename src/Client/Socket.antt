-- ===== src/Client/Socket.antt =====
-- src/client/mod.rs: `send_json` and `send_message`.
use integration_home_assista.Prelude.{ℕ, String, true, none, some, ◌∷◌, if◌then◌else◌}
use integration_home_assista.Json.{Value, str, uint, obj, field, Fields, as_object}
use integration_home_assista.Platform.{Platform}
use integration_home_assista.Errors.{Result, ok, err, bad_request, not_connected}
use integration_home_assista.Client.State.{HaClient, Surroundings, WsFrame, text_frame}

module _ {p : Platform} where
  -- `send_message`: a frame that the sink refuses stops the actor.
  unfoldable pub send_message :
      Surroundings p → WsFrame p → HaClient p → Result (Unit {0}) × HaClient p
  send_message w frame c =
      if w.takes_frame frame
      then (ok tt, record c { written = frame ∷ c.written })
      else (err not_connected, record c { stopping = true })

  -- `send_json`
  unfoldable pub send_json :
      Surroundings p → Value p.F64 → HaClient p → Result (Unit {0}) × HaClient p
  unfolding send_message
  send_json w msg c = elim (as_object msg) [
    | none ↦ (err (bad_request "json message must be an object"), c)
    | some _ ↦ send_message w (text_frame msg) c
  ]

-- A message of the given id and type, with further fields.
abbrev pub command : {F : Type 0} → ℕ → String → Fields F → Value F
command id type fields = obj (field "id" (uint id) (field "type" (str type) fields))
