-- ===== src/Controller/Sessions/History.antt =====
-- The sessions that the controller has are those that the messages of the server say are open.
use text.Mathlib.Text.{◌==◌}
use mathlib.Core.Option.{some_inj}
use mathlib.Core.Path.{ap}
use integration_home_assista.Prelude.{
  ℕ, [], ◌∷◌, String, Bool, false, not, List, Option, some, ◌&&◌, ◌||◌, ◌≡◌, refl, arith, sym, ◌∙◌,
}
use integration_home_assista.Prelude.Dict.{lookup}
use integration_home_assista.Platform.{Platform}
use integration_home_assista.Api.{Codec}
use integration_home_assista.Controller.Messages.{
  SelfMsg, connect_msg, disconnect_msg, abort_driver_setup_msg, request_options_msg,
  request_expert_options_msg, finish_setup_flow_msg,
}
use integration_home_assista.Controller.State.{
  World, Controller, Future, connecting_future, finish_future, new,
}
use integration_home_assista.Controller.Entities.{
  set_available_entities, subscribe_ha_events, unsubscribe_ha_events,
}
use integration_home_assista.Controller.Setup.{finish_done}
use integration_home_assista.Controller.Sessions.{r2_session_disconnect}
use integration_home_assista.Controller.Step.{
  Message, new_session_msg, session_disconnect_msg, event_msg, response_msg, request_message,
  connection_msg, entity_msg, available_msg, set_available_msg, setup_driver_message,
  user_data_message, subscribe_message, unsubscribe_message, handle, handle_self, finish_step,
  external, fires, own, ends, Reach, start, next,
}
use integration_home_assista.Controller.Sessions.Kept.{
  sessions-send_r2_msg, sessions-connection_event, sessions-disconnect, sessions-connect,
  sessions-connect_done,
}
use integration_home_assista.Controller.Sessions.Known.{
  knows, is_some-erase, knows-entity_event, knows-available_entities, knows-with_subscriptions,
  knows-request_msg,
}
use integration_home_assista.Controller.Sessions.Events.{
  knows-new_r2_session, knows-r2_event, knows-r2_response,
}
use integration_home_assista.Controller.Sessions.Flow.{
  knows-setup_driver_msg, knows-set_driver_user_data_msg, knows-request_options,
  knows-request_expert_options, knows-finish_setup_flow, knows-abort_driver_setup,
}

module _ {p : Platform} where
  -- Whether the session of a remote is open after a message, given whether it was.
  abbrev pub open_after : String → Message p → Bool → Bool
  open_after key (new_session_msg id _) b = id == key || b
  open_after key (session_disconnect_msg id) b = not (id == key) && b
  open_after key _ b = b

  -- The same after all messages, the last one first.
  abbrev pub is_open : String → List (Message p) → Bool
  is_open key [] = false
  is_open key (m ∷ ms) = open_after key m (is_open key ms)

module _ {p : Platform} {codec : Codec p} where
  -- The messages of the other actors that led to a state, the last one first.
  abbrev pub messages : {c : Controller p} → Reach codec c → List (Message p)
  messages (start _ _ _) = []
  messages (next r (external _ m _)) = m ∷ messages r
  messages (next r (fires _ _ _ _ _ _)) = messages r
  messages (next r (own _ _ _ _ _)) = messages r
  messages (next r (ends _ _ _ _ _ _ _)) = messages r

module _ {p : Platform} (codec : Codec p) (w : World p) (key : String) where
  pub knows-handle :
      (m : Message p) (c d : Controller p)
      → handle codec w m c ≡ some d
      → knows key d ≡ open_after key m (knows key c)
  unfolding handle r2_session_disconnect set_available_entities subscribe_ha_events
      unsubscribe_ha_events
  knows-handle (new_session_msg id addr) c d e =
      ground (arith, e, knows-new_r2_session w key id addr c)
  knows-handle (session_disconnect_msg id) c d e =
      ground (arith, e, is_some-erase key id c.sessions)
  knows-handle (event_msg id x) c d e = ground (arith, e, knows-r2_event w key id x c)
  knows-handle (response_msg r data_) c d e = knows-r2_response w key r data_ c d e
  knows-handle (request_message msg) c d e = ground (arith, e, knows-request_msg codec w key msg c)
  knows-handle (connection_msg id s) c d e = ground (arith, e, sessions-connection_event w id s c)
  knows-handle (entity_msg change) c d e = ground (arith, e, knows-entity_event w key change c)
  knows-handle (available_msg entities) c d e =
      ground (arith, e, knows-available_entities w key entities c)
  knows-handle (set_available_msg entities) c d e = ground (arith, e)
  knows-handle (setup_driver_message id data_) c d e =
      ground (arith, e, knows-setup_driver_msg w key id data_ c)
  knows-handle (user_data_message id data_) c d e =
      ground (arith, e, knows-set_driver_user_data_msg w key id data_ c)
  knows-handle (subscribe_message id data_) c d e =
      ap (knows key) (sym (some_inj.0 e)) ∙ knows-with_subscriptions w key _ id _ c
  knows-handle (unsubscribe_message id data_) c d e =
      ap (knows key) (sym (some_inj.0 e)) ∙ knows-with_subscriptions w key _ id _ c

module _ {p : Platform} (w : World p) (key : String) where
  knows-handle_self : (m : SelfMsg) (c : Controller p) → knows key (handle_self w m c) ≡ knows key c
  unfolding handle_self
  knows-handle_self connect_msg c = ground (arith, sessions-connect w c)
  knows-handle_self disconnect_msg c = ground (arith, sessions-disconnect w c)
  knows-handle_self (abort_driver_setup_msg id expired) c =
      knows-abort_driver_setup w key id expired c
  knows-handle_self (request_options_msg id) c = knows-request_options w key id c
  knows-handle_self (request_expert_options_msg id) c = knows-request_expert_options w key id c
  knows-handle_self (finish_setup_flow_msg id error) c = knows-finish_setup_flow w key id error c

  knows-finish_step :
      (result : Option ℕ) (f : Future p) (c : Controller p)
      → knows key (finish_step w result f c) ≡ knows key c
  unfolding finish_step finish_done
  knows-finish_step result (connecting_future request) c =
      ground (arith, sessions-connect_done w request result c)
  knows-finish_step result (finish_future delay id e) c =
      ground (arith, sessions-send_r2_msg w e id c)

module _ {p : Platform} {codec : Codec p} where
  -- In every state that the controller reaches, it has a session of a remote exactly if, of the
  -- messages of the server that open or end a session of this remote, the last one opens it, however
  -- the other messages, the timers, the messages of the controller to itself and the ends of its
  -- futures come in between.
  pub knows-IsOpen :
      {c : Controller p} (r : Reach codec c) (key : String) → knows key c ≡ is_open key (messages r)
  unfolding new lookup
  knows-IsOpen (start _ _ _) key = refl
  knows-IsOpen (next r (external w m e)) key =
      knows-handle codec w key m _ _ e ∙ ap (open_after key m) (knows-IsOpen r key)
  knows-IsOpen (next r (fires w before after t _ e)) key =
      ap (knows key) e ∙ knows-handle_self w key t.message _ ∙ knows-IsOpen r key
  knows-IsOpen (next r (own w m rest _ e)) key =
      ap (knows key) e ∙ knows-handle_self w key m _ ∙ knows-IsOpen r key
  knows-IsOpen (next r (ends w result before after f _ e)) key =
      ap (knows key) e ∙ knows-finish_step w key result f _ ∙ knows-IsOpen r key
