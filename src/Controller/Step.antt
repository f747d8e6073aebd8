-- ===== src/Controller/Step.antt =====
-- The messages of the controller actor, and its steps: a message from outside, a timer that fires,
-- a message to itself, or the end of a future. Actix handles one message at a time.
pub mod Newest
use integration_home_assista.Prelude.{ℕ, String, Option, some, List, ◌∷◌, ◌++◌, ◌≡◌}
use integration_home_assista.Json.{Value}
use integration_home_assista.Platform.{Platform}
use integration_home_assista.Settings.{HomeAssistantSettings}
use integration_home_assista.Api.{
  R2Event, R2Response, SetupDriver, IntegrationSetup, EntityChange, AvailableIntgEntity, Codec,
}
use integration_home_assista.Controller.Messages.{
  SelfMsg, connect_msg, disconnect_msg, abort_driver_setup_msg, request_options_msg,
  request_expert_options_msg, finish_setup_flow_msg,
}
use integration_home_assista.Controller.State.{
  World, Controller, Timer, Future, connecting_future, finish_future, without, new,
}
use integration_home_assista.Controller.Connection.{
  ConnectionState, connection_event, disconnect, connect, connect_done,
}
use integration_home_assista.Controller.Sessions.{
  new_r2_session, r2_session_disconnect, r2_event, r2_response,
}
use integration_home_assista.Controller.Entities.{
  entity_event, available_entities, set_available_entities, subscribe_ha_events,
  unsubscribe_ha_events,
}
use integration_home_assista.Controller.Requests.{R2RequestMsg, request_msg}
use integration_home_assista.Controller.Setup.{
  setup_driver_msg, set_driver_user_data_msg, request_options, request_expert_options,
  finish_setup_flow, finish_done, abort_driver_setup,
}

-- What other actors send. The last four are sent by the future of a request of a remote.
pub data Message (p : Platform) : Type 0 where
  new_session_msg : String → ℕ → Message p
  session_disconnect_msg : String → Message p
  event_msg : String → R2Event → Message p
  response_msg : R2Response → Option (Value p.F64) → Message p
  request_message : R2RequestMsg p → Message p
  connection_msg : String → ConnectionState → Message p
  entity_msg : EntityChange p → Message p
  available_msg set_available_msg : List (AvailableIntgEntity p) → Message p
  setup_driver_message : String → SetupDriver → Message p
  user_data_message : String → IntegrationSetup → Message p
  subscribe_message unsubscribe_message : String → Option (Value p.F64) → Message p

module _ {p : Platform} (codec : Codec p) (w : World p) where
  -- The handlers; `none` is a panic.
  unfoldable pub handle : Message p → Controller p → Option (Controller p)
  handle (new_session_msg id addr) c = some (new_r2_session w id addr c)
  handle (session_disconnect_msg id) c = some (r2_session_disconnect id c)
  handle (event_msg id e) c = some (r2_event w id e c)
  handle (response_msg r data_) c = r2_response w r data_ c
  handle (request_message msg) c = some (request_msg codec w msg c).1
  handle (connection_msg id s) c = some (connection_event w id s c)
  handle (entity_msg change) c = some (entity_event w change c)
  handle (available_msg entities) c = some (available_entities w entities c)
  handle (set_available_msg entities) c = some (set_available_entities entities c)
  handle (setup_driver_message id data_) c = some (setup_driver_msg w id data_ c).1
  handle (user_data_message id data_) c = some (set_driver_user_data_msg w id data_ c).1
  handle (subscribe_message id data_) c = some (subscribe_ha_events w codec id data_ c).1
  handle (unsubscribe_message id data_) c = some (unsubscribe_ha_events w codec id data_ c).1

module _ {p : Platform} (w : World p) where
  -- The handlers of the messages that the controller sends to itself.
  unfoldable pub handle_self : SelfMsg → Controller p → Controller p
  handle_self connect_msg c = (connect w c).1
  handle_self disconnect_msg c = disconnect w c
  handle_self (abort_driver_setup_msg id expired) c = abort_driver_setup w id expired c
  handle_self (request_options_msg id) c = request_options w id c
  handle_self (request_expert_options_msg id) c = request_expert_options w id c
  handle_self (finish_setup_flow_msg id error) c = finish_setup_flow w id error c

  -- The end of a future; the result is that of a connection attempt.
  unfoldable pub finish_step : Option ℕ → Future p → Controller p → Controller p
  finish_step result (connecting_future request) c = connect_done w request result c
  finish_step result (finish_future delay id e) c = finish_done w id e c

-- One step of the actor. In each the surroundings answer anew.
pub data Step {p : Platform} (codec : Codec p) (c : Controller p) (d : Controller p) : Type 0 where
  external : (w : World p) (m : Message p) → handle codec w m c ≡ some d → Step codec c d
  -- A pending timer fires: it is no longer pending, and its message is handled.
  fires :
      (w : World p) (before after : List Timer) (t : Timer)
      → c.timers ≡ before ++ t ∷ after
      → d ≡ handle_self w t.message (record c { timers = without t.handle c.timers })
      → Step codec c d
  own :
      (w : World p) (m : SelfMsg) (rest : List SelfMsg)
      → c.queue ≡ m ∷ rest
      → d ≡ handle_self w m (record c { queue = rest })
      → Step codec c d
  -- Futures run side by side, and any of them may end first.
  ends :
      (w : World p) (result : Option ℕ) (before after : List (Future p)) (f : Future p)
      → c.futures ≡ before ++ f ∷ after
      → d ≡ finish_step w result f (record c { futures = before ++ after })
      → Step codec c d

-- The states that the controller reaches from its start.
pub data Reach {p : Platform} (codec : Codec p) : Controller p → Type 0 where
  start :
      (token_file : String → Option String) (hass : HomeAssistantSettings p)
      (drv_metadata : p.DriverMetadata)
      → Reach codec (new token_file hass drv_metadata)
  next : {c d : Controller p} → Reach codec c → Step codec c d → Reach codec d
