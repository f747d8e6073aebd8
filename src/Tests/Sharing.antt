-- ===== src/Tests/Sharing.antt =====
-- The entities and their events on the test platform.
use integration_home_assista.Prelude.{true, [], ◌∷◌, ◌≡◌, ◌≢◌, refl, none, some}
use integration_home_assista.Prelude.Dict.{lookup}
use integration_home_assista.Json.{null, end}
use integration_home_assista.Api.{EntityChange, light, entity, deserialize}
use integration_home_assista.Controller.Machine.{running, setup_flow}
use integration_home_assista.Controller.Messages.{event, entity_change_data}
use integration_home_assista.Controller.Entities.{
  contains, entity_event, available_entities, subscribe_ha_events,
}
use integration_home_assista.Controller.Entities.Delivery.{entity_event_lem, delivered}
use integration_home_assista.Controller.Entities.Answers.{available_entities_lem}
use integration_home_assista.Controller.Entities.Subscriptions.{
  subscriptions, subscribe_ha_events_lem,
}
use integration_home_assista.Tests.Fixture.{plain, world, codec, remote, idle}

abbrev change : EntityChange plain
change = record { device_id = none; entity_type = light; entity_id = "light.a"; attributes = end }

entity_event_lem_example : entity_event world change idle ≡ record idle {
  sent =
      delivered world (event "entity_change" entity (entity_change_data change)) idle.sessions [];
}
entity_event_lem_example = entity_event_lem world change idle (tt, tt)

available_entities_lem_example :
    lookup "r" (available_entities world [] idle).sessions
    ≡ some (record remote { get_available_entities_id = none })
unfolding lookup
available_entities_lem_example =
    ((available_entities_lem world [] "r" remote idle refl (λ m. refl)).0 4 refl refl).0

subscribe_ha_events_lem_example :
    contains "light.a"
      (subscriptions (lookup "r" (subscribe_ha_events world codec "r" (some null) idle).1.sessions))
    ≡ true
unfolding lookup deserialize contains
subscribe_ha_events_lem_example =
    (subscribe_ha_events_lem codec world "r" (some null) ("light.a" ∷ []) idle remote "light.a" refl
      refl refl).0

setup_flow-ne-running : setup_flow ≢ running
setup_flow-ne-running e = cc
