-- ===== src/Client/Exchange.antt =====
-- What the client exchanges with Home Assistant (src/client): requests for states, the switch to the
-- events of the component, the subscriptions, and the heartbeat.
pub mod States
pub mod Component
pub mod Heartbeat
