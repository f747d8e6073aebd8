-- ===== src/Entity.antt =====
-- src/client/entity, src/client/get_states.rs and src/client/event.rs: the states and events of Home
-- Assistant as entities and entity changes of the remote. The conversions by entity type stand behind
-- an interface.
pub mod Interface
pub mod States
pub mod Events
pub mod Common
pub mod Simple
pub mod Cover
pub mod Climate
pub mod Light
pub mod MediaPlayer
pub mod Conversions
pub mod RoundTrip
pub mod Types
pub mod Agreement
