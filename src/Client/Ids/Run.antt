-- ===== src/Client/Ids/Run.antt =====
-- The ids of a whole connection, from `HomeAssistantClient::start` on.
use integration_home_assista.Prelude.{
  ℕ, ◌*◌, ◌^◌, ◌<◌, ◌≡◌, String, List, [], ◌∷◌, length, some, inl, inr, arith, Option-cases,
  Bool-cases,
}
use integration_home_assista.Platform.{Platform}
use integration_home_assista.Settings.{HeartbeatSettings}
use integration_home_assista.Client.State.{HaClient, Surroundings, start_client}
use integration_home_assista.Client.Step.{Input, Environment, step, run, started}
use integration_home_assista.Client.Ids.Fresh.{
  fresh, Fresh-distinct, HasDistinctIds, Issues, issued, Issued-Fresh, Issued-then, Issued-more,
}
use integration_home_assista.Client.Ids.Steps.{step-Issues}

module _ {p : Platform} (env : Environment p) where
  run-Issues :
      (inputs : List (Surroundings p × Input p)) (c d : HaClient p)
      → run env inputs c ≡ some d
      → Issues (5 * length inputs) c d
  unfolding run
  run-Issues [] c d e = issued λ few f. ground arith
  run-Issues ((w, i) ∷ inputs) c d e = elim (Bool-cases c.stopping) [
    | inl q ↦ issued λ few f. ground arith
    | inr q ↦ elim (Option-cases (step env w i c)) [
      | inl r ↦ issued λ few f. ground arith
      | inr (c', r) ↦
          Issued-more (5 * length ((w, i) ∷ inputs)) (omega arith)
            (Issued-then (step-Issues env w i c c' r) (run-Issues inputs c' d (ground arith)))
    ]
  ]

  started-IsEmpty :
      (url : p.Url) (token : String) (heartbeat : HeartbeatSettings) (seq now : ℕ) (c : HaClient p)
      → start_client url token heartbeat seq now ≡ some c
      → ((started c).ws_id ≡ 0) × ((started c).written ≡ [])
  unfolding start_client started
  started-IsEmpty url token heartbeat seq now c e = ground arith

  -- In a connection of fewer than 2 ^ 32 / 5 inputs, whatever they are, no two messages that the client
  -- has written carry the same id.
  pub run-HasDistinctIds :
      (url : p.Url) (token : String) (heartbeat : HeartbeatSettings) (seq now : ℕ)
      (inputs : List (Surroundings p × Input p)) (c d : HaClient p)
      → start_client url token heartbeat seq now ≡ some c
      → 5 * length inputs < 2 ^ 32
      → run env inputs (started c) ≡ some d
      → HasDistinctIds d.written
  run-HasDistinctIds url token heartbeat seq now inputs c d begins few ran =
      let (no_id, none_written) = started-IsEmpty url token heartbeat seq now c begins in
      Fresh-distinct
        (Issued-Fresh (run-Issues inputs (started c) d ran) (omega arith)
          (rw (no_id, none_written) (fresh tt tt))).0
