-- ===== src/Client/Exchange/States.antt =====
-- The requests for states (src/client/get_states.rs and get_entities.rs).
use integration_home_assista.Prelude.{
  ℕ, ◌+◌, ◌%◌, ◌^◌, ◌≡◌, String, true, false, List, ◌∷◌, some, arith,
}
use integration_home_assista.Platform.{Platform}
use integration_home_assista.Errors.{ok, err, not_connected}
use integration_home_assista.Client.State.{HaClient, Surroundings, text_frame}
use integration_home_assista.Client.Subscriptions.{info_command}
use integration_home_assista.Client.Handlers.{
  get_states_command, uc_states_command, get_states_handler, get_available_entities_handler,
}

module _ {p : Platform} (w : Surroundings p) (c : HaClient p) where
  abbrev reserved : ℕ
  reserved = (c.ws_id + 1) % 2 ^ 32

  abbrev searching : ℕ
  searching = (reserved + 1) % 2 ^ 32

  -- A request for states takes the next id, which their result will carry. With the component one
  -- message asks for the states of the entities. Without it a search for the component, with the id
  -- after that, is written first: the ids of the two messages do not increase. With the component and
  -- without it, if the sink refuses the request for states, the answer is an error and the actor stops. The request for the available
  -- entities is that for the states of the subscribed entities.
  pub get_states_handler_lem :
      (remote_id : String) (ids : List String)
      → ((get_states_handler w remote_id ids c).1.entity_states_id ≡ some reserved)
        × (c.uc_ha_component ≡ true
            → w.takes_frame (text_frame (uc_states_command reserved ids remote_id)) ≡ true
            → ((get_states_handler w remote_id ids c).1.written
                ≡ text_frame (uc_states_command reserved ids remote_id) ∷ c.written)
              × ((get_states_handler w remote_id ids c).0 ≡ ok tt))
        × (c.uc_ha_component ≡ false
            → w.takes_frame (text_frame (info_command searching)) ≡ true
            → w.takes_frame (text_frame (get_states_command reserved)) ≡ true
            → ((get_states_handler w remote_id ids c).1.written
                ≡ text_frame (get_states_command reserved)
                  ∷ text_frame (info_command searching)
                  ∷ c.written)
              × ((get_states_handler w remote_id ids c).0 ≡ ok tt))
        × (c.uc_ha_component ≡ false
            → w.takes_frame (text_frame (get_states_command reserved)) ≡ false
            → ((get_states_handler w remote_id ids c).0 ≡ err not_connected)
              × ((get_states_handler w remote_id ids c).1.stopping ≡ true))
        × (c.uc_ha_component ≡ true
            → w.takes_frame (text_frame (uc_states_command reserved ids remote_id)) ≡ false
            → ((get_states_handler w remote_id ids c).0 ≡ err not_connected)
              × ((get_states_handler w remote_id ids c).1.stopping ≡ true))
        × (get_available_entities_handler w remote_id c
            ≡ get_states_handler w remote_id c.subscribed_entities c)
  unfolding get_states_handler get_available_entities_handler
  get_states_handler_lem remote_id ids = ground arith
