-- ===== src/Server/Life/Ends.antt =====
-- src/server/ws/connection.rs: when a connection ends.
use integration_home_assista.Prelude.{
  ℕ, String, Bool, true, false, List, [], ◌∷◌, ◌++◌, ◌≤◌, ◌-◌, ◌≡◌, is_some,
}
use integration_home_assista.Platform.{Platform}
use integration_home_assista.Server.{Names, Frame, text, ping, pong, nop}
use integration_home_assista.Server.Life.{
  ConnInput, frame_input, interval_input, text_input, registered_input, answer_input, Life,
  open_conn, ended,
}

-- The time of the last sign of life after a frame; a text is none.
abbrev pub heard : ℕ → Frame → ℕ → ℕ
heard now (ping _) before = now
heard now (pong _) before = now
heard now _ before = before

abbrev pub ends_by : Frame → Bool
ends_by (text _) = false
ends_by (ping _) = false
ends_by (pong _) = false
ends_by nop = false
ends_by _ = true

-- The text of a frame.
abbrev pub said : Frame → List String
said (text t) = t ∷ []
said _ = []

-- No frame ends the connection, no text that is handled is invalid JSON, the registration does not
-- fail, and none of the intervals finds that the last ping or pong of the remote, or the start, is
-- more than the timeout ago.
abbrev pub StaysOpen : {p : Platform} → Names p → ℕ → ℕ → List String → List (ConnInput p) → Type 0
StaysOpen names limit last texts [] = Unit {0}
StaysOpen names limit last texts (frame_input now f ∷ inputs) =
    (ends_by f ≡ false) × StaysOpen names limit (heard now f last) (texts ++ said f) inputs
StaysOpen names limit last texts (interval_input now ∷ inputs) =
    (now - last ≤ limit) × StaysOpen names limit last texts inputs
StaysOpen names limit last [] (text_input _ ∷ inputs) = StaysOpen names limit last [] inputs
StaysOpen names limit last (t ∷ texts) (text_input _ ∷ inputs) =
    (is_some (names.decode t) ≡ true) × StaysOpen names limit last texts inputs
StaysOpen names limit last texts (registered_input known ∷ inputs) =
    (known ≡ true) × StaysOpen names limit last texts inputs
StaysOpen names limit last texts (answer_input _ ∷ inputs) = StaysOpen names limit last texts inputs

abbrev pub is_open : {p : Platform} → Life p → Bool
is_open (open_conn _ _ _) = true
is_open (ended _) = false
