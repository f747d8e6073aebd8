-- ===== src/Client/Exchange/Component.antt =====
-- The switch to the events of the Unfolded Circle component, and the renewal of its subscriptions
-- (src/client/mod.rs and subscribed_entities.rs).
use mathlib.Core.Path.{subst}
use integration_home_assista.Prelude.{
  ℕ, Option, Option-cases, inl, inr, ap, sym, ◌∙◌, map-eq-some, if_of_true, if_of_false, ◌≡◌, refl,
  String, true, false, List, ◌∷◌, some, none, arith,
}
use integration_home_assista.Platform.{Platform}
use integration_home_assista.Controller.Connection.{client_connected}
use integration_home_assista.Client.State.{
  HaClient, Surroundings, WsFrame, text_frame, next_id, connection_event, tell,
}
use integration_home_assista.Client.Subscriptions.{
  configure_command, entities_command, end_command, unsubscribe_command, subscribe_uc_configuration,
  unsubscribe_uc_configuration, subscribe_uc_events, unsubscribe_uc_events, renew_uc_configuration,
  renew_uc_events,
}
use integration_home_assista.Client.Text.{component_found, info_result, end_standard_events}
use integration_home_assista.Client.Safety.Keeps.{renew_both-Keeps}
use integration_home_assista.Client.Handlers.{subscribed_entities_handler}

-- What the subscriptions at the component leave alone.
abbrev pub SameScope : {p : Platform} → HaClient p → HaClient p → Type 0
SameScope c d =
    (d.subscribed_entities ≡ c.subscribed_entities)
    × (d.uc_ha_component ≡ c.uc_ha_component)
    × (d.remote_id ≡ c.remote_id)

-- The message that ends a subscription, if there is one.
abbrev ended :
    {p : Platform} → String → ℕ → Option ℕ → HaClient p → List (WsFrame p) → List (WsFrame p)
ended type id none c earlier = earlier
ended type id (some subscription) c earlier =
    text_frame (end_command id type subscription c) ∷ earlier

-- The message names the remote, and nothing else of the client.
ended-remote_id :
    {p : Platform} (type : String) (id : ℕ) (o : Option ℕ) (c d : HaClient p)
    (earlier : List (WsFrame p))
    → c.remote_id ≡ d.remote_id
    → ended type id o c earlier ≡ ended type id o d earlier
ended-remote_id type id none c d earlier e = refl
ended-remote_id type id (some subscription) c d earlier e = rw e refl

-- Both subscriptions at the component are renewed: each that was there is ended by a message, a new one
-- is made by the next message, and its id is kept. The last message subscribes the entities.
pub record IsRenewed {p : Platform} (w : Surroundings p) (c : HaClient p) (d : HaClient p)
    : Type 0 where
  pub end_configure : ℕ
  pub configure_id : ℕ
  pub end_events : ℕ
  pub configured : d.subscribe_configure_id ≡ some configure_id
  pub subscribed : d.subscribe_uc_events_id ≡ some d.ws_id
  pub announced :
      d.written
      ≡ text_frame (entities_command d.ws_id c)
        ∷ ended "unfoldedcircle/event/entities/unsubscribe" end_events c.subscribe_uc_events_id c (
            text_frame (configure_command w configure_id c)
            ∷ ended "unfoldedcircle/event/configure/unsubscribe" end_configure
                c.subscribe_configure_id c c.written)

module _ {p : Platform} (w : Surroundings p) (takes : (f : WsFrame p) → w.takes_frame f ≡ true)
    (c : HaClient p) where
  -- What an end of a subscription leaves.
  unsubscribe_uc_events_lem :
      let d = unsubscribe_uc_events w c in
      (d.subscribe_uc_events_id ≡ none)
      × (d.subscribe_configure_id ≡ c.subscribe_configure_id)
      × (d.written
          ≡ ended "unfoldedcircle/event/entities/unsubscribe"
              (next_id c)
              c.subscribe_uc_events_id
              c
              c.written)
      × SameScope c d
  unfolding unsubscribe_uc_events
  unsubscribe_uc_events_lem = elim (Option-cases c.subscribe_uc_events_id) [
    | inl q ↦ ground arith
    | inr (s, q) ↦ ground (
      arith,
      takes (text_frame (end_command (next_id c) "unfoldedcircle/event/entities/unsubscribe" s c)),
    )
  ]

  unsubscribe_uc_configuration_lem :
      let d = unsubscribe_uc_configuration w c in
      (d.subscribe_configure_id ≡ none)
      × (d.subscribe_uc_events_id ≡ c.subscribe_uc_events_id)
      × (d.written
          ≡ ended "unfoldedcircle/event/configure/unsubscribe"
              (next_id c)
              c.subscribe_configure_id
              c
              c.written)
      × SameScope c d
  unfolding unsubscribe_uc_configuration
  unsubscribe_uc_configuration_lem = elim (Option-cases c.subscribe_configure_id) [
    | inl q ↦ ground arith
    | inr (s, q) ↦ ground (
      arith,
      takes (text_frame (end_command (next_id c) "unfoldedcircle/event/configure/unsubscribe" s c)),
    )
  ]

  subscribe_uc_configuration_lem :
      c.subscribe_configure_id ≡ none
      → let d = subscribe_uc_configuration w c in
        (d.subscribe_configure_id ≡ some (next_id c))
        × (d.subscribe_uc_events_id ≡ c.subscribe_uc_events_id)
        × (d.written ≡ text_frame (configure_command w (next_id c) c) ∷ c.written)
        × SameScope c d
  unfolding subscribe_uc_configuration
  subscribe_uc_configuration_lem none_yet =
      ground (arith, takes (text_frame (configure_command w (next_id c) c)))

  subscribe_uc_events_lem :
      c.subscribe_uc_events_id ≡ none
      → (subscribe_uc_events w c ≡ record c {
        ws_id = next_id c;
        subscribe_uc_events_id = some (next_id c);
        written = text_frame (entities_command (next_id c) c) ∷ c.written;
      })
  unfolding subscribe_uc_events
  subscribe_uc_events_lem none_yet =
      ground (arith, takes (text_frame (entities_command (next_id c) c)))

  -- What the end of the standard events leaves.
  end_standard_events_lem :
      (d : HaClient p)
      → end_standard_events w c ≡ some d
      → (d.uc_ha_component ≡ c.uc_ha_component)
        × (d.subscribed_events ≡ false)
        × (c.subscribed_events ≡ true → d.subscribe_standard_events_id ≡ none)
        × (d.subscribe_configure_id ≡ c.subscribe_configure_id)
        × (d.subscribe_uc_events_id ≡ c.subscribe_uc_events_id)
        × (c.subscribed_events ≡ false → d.written ≡ c.written)
        × ((subscription : ℕ)
            → c.subscribed_events ≡ true
            → c.subscribe_standard_events_id ≡ some subscription
            → d.written ≡ text_frame (unsubscribe_command (next_id c) subscription) ∷ c.written)
  unfolding end_standard_events
  end_standard_events_lem d e = (
    ground arith,
    ground arith,
    ground arith,
    ground arith,
    ground arith,
    ground arith,
    λ subscription on q.
        ground (arith, takes (text_frame (unsubscribe_command (next_id c) subscription))),
  )

module _ {p : Platform} (w : Surroundings p)
    (takes : (f : WsFrame p) → w.takes_frame f ≡ true) where
  -- The messages of the three steps, the ends before the new subscriptions.
  renewal_written :
      (c c₁ c₂ c₃ : HaClient p)
      → c₁.written
        ≡ ended "unfoldedcircle/event/configure/unsubscribe"
            (next_id c)
            c.subscribe_configure_id
            c
            c.written
      → c₂.written ≡ text_frame (configure_command w (next_id c₁) c₁) ∷ c₁.written
      → c₃.written
        ≡ ended "unfoldedcircle/event/entities/unsubscribe"
            (next_id c₂)
            c₂.subscribe_uc_events_id
            c₂
            c₂.written
      → c₁.subscribe_uc_events_id ≡ c.subscribe_uc_events_id
      → c₂.subscribe_uc_events_id ≡ c₁.subscribe_uc_events_id
      → SameScope c c₁
      → SameScope c₁ c₂
      → SameScope c₂ c₃
      → (text_frame (entities_command (next_id c₃) c₃) ∷ c₃.written)
        ≡ text_frame (entities_command (next_id c₃) c)
          ∷ ended "unfoldedcircle/event/entities/unsubscribe"
              (next_id c₂)
              c.subscribe_uc_events_id
              c
              (text_frame (configure_command w (next_id c₁) c)
                ∷ ended "unfoldedcircle/event/configure/unsubscribe"
                    (next_id c)
                    c.subscribe_configure_id
                    c
                    c.written)
  renewal_written c c₁ c₂ c₃ t₁ t₂ t₃ v₁ v₂ s₁ s₂ s₃ =
      let same =
        ended-remote_id "unfoldedcircle/event/entities/unsubscribe" (next_id c₂)
          c₂.subscribe_uc_events_id c₂ c c₂.written (s₂.2 ∙ s₁.2) in
      rw (t₃, same, v₂, v₁, t₂, t₁, s₃.0, s₂.0, s₁.0, s₃.2, s₂.2, s₁.2) refl

  renew_both-IsRenewed :
      (c : HaClient p)
      → let d = renew_uc_events w (renew_uc_configuration w c) in IsRenewed w c d × SameScope c d
  unfolding renew_uc_configuration renew_uc_events
  renew_both-IsRenewed c =
      let c₁ = unsubscribe_uc_configuration w c in
      let c₂ = subscribe_uc_configuration w c₁ in
      let c₃ = unsubscribe_uc_events w c₂ in
      let (n₁, v₁, t₁, s₁) = unsubscribe_uc_configuration_lem w takes c in
      let (n₂, v₂, t₂, s₂) = subscribe_uc_configuration_lem w takes c₁ n₁ in
      let (n₃, v₃, t₃, s₃) = unsubscribe_uc_events_lem w takes c₂ in
      rw (subscribe_uc_events_lem w takes c₃ n₃) (
        record {
          end_configure = next_id c;
          configure_id = next_id c₁;
          end_events = next_id c₂;
          configured = v₃ ∙ n₂;
          subscribed = refl;
          announced = renewal_written c c₁ c₂ c₃ t₁ t₂ t₃ v₁ v₂ s₁ s₂ s₃;
        },
        ground (arith, s₁, s₂, s₃),
      )

  known_handler :
      (ids : List String) (c : HaClient p)
      → c.authenticated ≡ true
      → subscribed_entities_handler w ids c
        ≡ renew_uc_events w (renew_uc_configuration w (record c { subscribed_entities = ids }))
  unfolding subscribed_entities_handler
  known_handler ids c known =
      let c' = record c { subscribed_entities = ids } in
      if_of_true c.authenticated (renew_uc_events w (renew_uc_configuration w c')) c' known

  -- While the sink takes every message: an authenticated client that is told the subscribed entities
  -- renews both subscriptions at the component, whether or not the component was found, and its last
  -- message subscribes exactly these entities. Before the authentication it only notes the entities.
  pub subscribed_entities_handler_lem :
      (ids : List String) (c : HaClient p)
      → (c.authenticated ≡ true
          → IsRenewed w
              (record c { subscribed_entities = ids })
              (subscribed_entities_handler w ids c)
            × SameScope
                (record c { subscribed_entities = ids })
                (subscribed_entities_handler w ids c))
        × (c.authenticated ≡ false
            → subscribed_entities_handler w ids c ≡ record c { subscribed_entities = ids })
  unfolding subscribed_entities_handler
  subscribed_entities_handler_lem ids c =
      let c' = record c { subscribed_entities = ids } in
      (
        λ known. rw (known_handler ids c known) (renew_both-IsRenewed c'),
        λ unknown.
            if_of_false c.authenticated (renew_uc_events w (renew_uc_configuration w c')) c'
              unknown,
      )

  -- While the sink takes every message: when the component answers the search for it, the client uses
  -- its events from then on. A subscription to the standard events is ended by a message, and none is
  -- left. Then both subscriptions at the component are renewed: each that was there is ended by a
  -- message, a new one is made by the next message, and the last message subscribes the entities.
  pub component_found_lem :
      (c d : HaClient p)
      → info_result w true c ≡ some d
      → (d.uc_ha_component ≡ true)
        × (d.subscribed_events ≡ false)
        × (c.subscribed_events ≡ true → d.subscribe_standard_events_id ≡ none)
        × ((c' : HaClient p) × IsRenewed w c' d
            × (c'.subscribe_configure_id ≡ c.subscribe_configure_id)
            × (c'.subscribe_uc_events_id ≡ c.subscribe_uc_events_id)
            × (c.subscribed_events ≡ false → c'.written ≡ c.written)
            × ((subscription : ℕ)
                → c.subscribed_events ≡ true
                → c.subscribe_standard_events_id ≡ some subscription
                → c'.written
                  ≡ text_frame (unsubscribe_command (next_id c) subscription) ∷ c.written))
  unfolding info_result component_found
  component_found_lem c d e =
      let found = record (tell (connection_event c.id client_connected) c) {
        uc_ha_component = true;
      } in
      let (c', q, r) = map-eq-some _ (end_standard_events w found) e in
      let (renewed, same) = renew_both-IsRenewed c' in
      let kept = renew_both-Keeps w c' in
      let log = end_standard_events_lem w takes found c' q in
      (
        ap (λ x. x.uc_ha_component) r ∙ same.1 ∙ log.0,
        ap (λ x. x.subscribed_events) r ∙ kept.0 ∙ log.1,
        λ k. ap (λ x. x.subscribe_standard_events_id) r ∙ kept.1 ∙ log.2 k,
        (c', subst (IsRenewed w c') (sym r) renewed, log.3, log.4, log.5, log.6),
      )
