-- ===== src/Controller/Machine.antt =====
-- The operation mode of the driver (src/controller/mod.rs, `state_machine! OperationMode`).
pub mod Gate
use integration_home_assista.Prelude.{Option, none, some, String}

-- The states.
pub data OperationModeState : Type 0 where
  require_setup running setup_flow wait_setup_user_data setup_error : OperationModeState

-- The inputs.
pub data OperationModeInput : Type 0 where
  configuration_available abort_setup setup_driver_request connected r2_request : OperationModeInput
  request_user_input successful setup_error setup_user_data : OperationModeInput

-- The outputs, in brackets in the source.
pub data OperationModeOutput : Type 0 where
  setup_flow_timer cancel_setup_flow_timer : OperationModeOutput

-- One row of the table for each state: the next state, and the output in brackets.
unfoldable pub transition :
    OperationModeState
    → OperationModeInput
    → Option (OperationModeState × Option OperationModeOutput)
transition require_setup configuration_available = some (running, none)
transition require_setup abort_setup = some (require_setup, none)
transition require_setup setup_driver_request = some (setup_flow, some setup_flow_timer)
transition require_setup connected = some (running, none)
transition running setup_driver_request = some (setup_flow, some setup_flow_timer)
transition running r2_request = some (running, none)
transition running connected = some (running, none)
transition running abort_setup = some (require_setup, none)
transition setup_flow request_user_input = some (wait_setup_user_data, none)
transition setup_flow successful = some (running, some cancel_setup_flow_timer)
transition setup_flow OperationModeInput.setup_error =
    some (OperationModeState.setup_error, some cancel_setup_flow_timer)
transition setup_flow abort_setup = some (require_setup, some cancel_setup_flow_timer)
transition setup_flow connected = some (setup_flow, none)
transition wait_setup_user_data setup_user_data = some (setup_flow, none)
transition wait_setup_user_data OperationModeInput.setup_error =
    some (OperationModeState.setup_error, some cancel_setup_flow_timer)
transition wait_setup_user_data abort_setup = some (require_setup, some cancel_setup_flow_timer)
transition wait_setup_user_data connected = some (wait_setup_user_data, none)
transition OperationModeState.setup_error abort_setup = some (require_setup, none)
transition OperationModeState.setup_error setup_driver_request = some (setup_flow, none)
transition OperationModeState.setup_error OperationModeInput.setup_error =
    some (OperationModeState.setup_error, none)
transition OperationModeState.setup_error connected = some (running, none)
transition _ _ = none

-- `StateMachine::consume`, by the state that it leaves: a refused input changes nothing.
unfoldable pub consume : OperationModeState → OperationModeInput → OperationModeState
consume s i = elim (transition s i) [ none ↦ s | some (s', _) ↦ s' ]

-- The texts of `{:?}`.
unfoldable pub state_name : OperationModeState → String
state_name require_setup = "RequireSetup"
state_name running = "Running"
state_name setup_flow = "SetupFlow"
state_name wait_setup_user_data = "WaitSetupUserData"
state_name OperationModeState.setup_error = "SetupError"

unfoldable pub input_name : OperationModeInput → String
input_name configuration_available = "ConfigurationAvailable"
input_name abort_setup = "AbortSetup"
input_name setup_driver_request = "SetupDriverRequest"
input_name connected = "Connected"
input_name r2_request = "R2Request"
input_name request_user_input = "RequestUserInput"
input_name successful = "Successful"
input_name OperationModeInput.setup_error = "SetupError"
input_name setup_user_data = "SetupUserData"
