-- ===== src/Client.antt =====
-- src/client: the actor of a connection to Home Assistant. The conversion of a service call, which
-- the same actor answers, is in Service.
pub mod State
pub mod Socket
pub mod Subscriptions
pub mod Text
pub mod Handlers
pub mod Step
pub mod Ids
pub mod Safety
pub mod Exchange
