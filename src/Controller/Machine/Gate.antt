-- ===== src/Controller/Machine/Gate.antt =====
-- What the operation mode lets through while a setup flow is active.
use integration_home_assista.Prelude.{Bool, true, false, List, [], ◌∷◌, ◌≡◌, none, All, arith}
use integration_home_assista.Controller.Machine.{
  OperationModeState, OperationModeInput, require_setup, r2_request, successful, abort_setup,
  setup_driver_request, transition, consume,
}
use integration_home_assista.Controller.SetupTimer.{is_in_setup}

-- The inputs that end a setup flow.
abbrev pub ends_setup : OperationModeInput → Bool
ends_setup successful = true
ends_setup abort_setup = true
ends_setup OperationModeInput.setup_error = true
ends_setup _ = false

abbrev pub consume_all : List OperationModeInput → OperationModeState → OperationModeState
consume_all [] s = s
consume_all (i ∷ is) s = consume_all is (consume s i)

stays :
    (s : OperationModeState) (i : OperationModeInput)
    → is_in_setup s ≡ true
    → ends_setup i ≡ false
    → is_in_setup (consume s i) ≡ true
unfolding consume transition
stays s i h k = ground arith

refused :
    (s : OperationModeState)
    → is_in_setup s ≡ true
    → (transition s r2_request ≡ none) × (transition s setup_driver_request ≡ none)
unfolding transition
refused s h = ground arith

-- From a state of the setup flow, whatever inputs arrive, as long as none of them is a success, an
-- abort or an error: the mode stays in the setup flow, and it refuses both a further setup request
-- and every request that needs normal operation.
pub consume_all_refused :
    (is : List OperationModeInput) (s : OperationModeState)
    → is_in_setup s ≡ true
    → All (λ i. ends_setup i ≡ false) is
    → (is_in_setup (consume_all is s) ≡ true)
      × (transition (consume_all is s) r2_request ≡ none)
      × (transition (consume_all is s) setup_driver_request ≡ none)
consume_all_refused [] s h _ = let (a, b) = refused s h in (h, a, b)
consume_all_refused (i ∷ is) s h (k, ks) = consume_all_refused is (consume s i) (stays s i h k) ks

-- A reset is possible in every mode, and a setup flow starts from every mode afterwards.
pub abort_setup_restarts :
    (s : OperationModeState)
    → (consume s abort_setup ≡ require_setup)
      × (consume (consume s abort_setup) setup_driver_request ≡ OperationModeState.setup_flow)
unfolding consume transition
abort_setup_restarts s = ground arith
