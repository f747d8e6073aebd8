-- ===== src/Controller/Frames.antt =====
-- What the sending methods change: only what has been sent.
use integration_home_assista.Prelude.{ℕ, String, List, [], ◌∷◌, ◌≡◌, refl, arith, ap, ◌∙◌}
use integration_home_assista.Prelude.Dict.{Dict}
use integration_home_assista.Platform.{Platform}
use integration_home_assista.Api.{DeviceState}
use integration_home_assista.Controller.Messages.{WsMessage, HaMsg, Sent}
use integration_home_assista.Controller.State.{R2Session, World, Controller}
use integration_home_assista.Controller.Core.{
  try_send_r2, try_send_ha, send_r2_msg, send_device_state, send_device_states,
  broadcast_device_state, set_device_state,
}

module _ {p : Platform} (w : World p) where
  -- `d` is `c` with more sent.
  abbrev pub OnlySends : Controller p → Controller p → Type 0
  OnlySends c d = (sent : List (Sent p)) × (d ≡ record c { sent = sent })

  pub send_r2_msg-OnlySends :
      (m : WsMessage p) (id : String) (c : Controller p) → OnlySends c (send_r2_msg w m id c)
  unfolding send_r2_msg
  send_r2_msg-OnlySends m id c = ((send_r2_msg w m id c).sent, ground arith)

  pub try_send_ha-OnlySends :
      (addr : ℕ) (m : HaMsg p) (c : Controller p) → OnlySends c (try_send_ha w addr m c)
  unfolding try_send_ha
  try_send_ha-OnlySends addr m c = ((try_send_ha w addr m c).sent, ground arith)

  pub try_send_r2-OnlySends :
      (r : ℕ) (m : WsMessage p) (c : Controller p) → OnlySends c (try_send_r2 w r m c)
  unfolding try_send_r2
  try_send_r2-OnlySends r m c = ((try_send_r2 w r m c).sent, ground arith)

  OnlySends-trans : (c d e : Controller p) → OnlySends c d → OnlySends d e → OnlySends c e
  OnlySends-trans c d e (s, h) (t, k) =
      (t, k ∙ ap {A = Controller p} (λ x. record x { sent = t }) h)

  pub send_device_state-OnlySends :
      (id : String) (c : Controller p) → OnlySends c (send_device_state w id c)
  unfolding send_device_state
  send_device_state-OnlySends id c = ((send_device_state w id c).sent, ground arith)

  send_device_states-OnlySends :
      (d : Dict R2Session) (c : Controller p) → OnlySends c (send_device_states w d c)
  unfolding send_device_states
  send_device_states-OnlySends [] c = (c.sent, refl)
  send_device_states-OnlySends ((id, s) ∷ d) c =
      OnlySends-trans c (send_device_state w id c) _ (send_device_state-OnlySends id c)
        (send_device_states-OnlySends d (send_device_state w id c))

  -- Setting the device state changes that field, and what has been sent.
  pub set_device_state_lem :
      (state : DeviceState) (c : Controller p)
      → (sent : List (Sent p)) × (set_device_state w state c
          ≡ record c { device_state = state; sent = sent })
  unfolding set_device_state broadcast_device_state
  set_device_state_lem state c =
      send_device_states-OnlySends c.sessions (record c { device_state = state })

  -- What setting the device state leaves, field by field.
  abbrev pub KeepsFields : DeviceState → Controller p → Controller p → Type 0
  KeepsFields state c d =
      (d.device_state ≡ state)
      × (d.timers ≡ c.timers)
      × (d.hass ≡ c.hass)
      × (d.ha_reconnect_attempt ≡ c.ha_reconnect_attempt)
      × (d.ha_client ≡ c.ha_client)
      × (d.ha_client_id ≡ c.ha_client_id)
      × (d.reconnect_handle ≡ c.reconnect_handle)
      × (d.futures ≡ c.futures)
      × (d.sessions ≡ c.sessions)
      × (d.machine ≡ c.machine)
      × (d.queue ≡ c.queue)
      × (d.setup_timeout ≡ c.setup_timeout)
      × (d.next_handle ≡ c.next_handle)

  pub set_device_state-KeepsFields :
      (state : DeviceState) (c : Controller p) → KeepsFields state c (set_device_state w state c)
  set_device_state-KeepsFields state c =
      let (s, e) = set_device_state_lem state c in
      rw e (refl, refl, refl, refl, refl, refl, refl, refl, refl, refl, refl, refl, refl)
