-- ===== src/Controller.antt =====
-- src/controller: the controller actor, by its handlers, with the theorems on them.
pub mod Machine
pub mod Messages
pub mod State
pub mod Core
pub mod Connection
pub mod Sessions
pub mod Entities
pub mod Requests
pub mod Url
pub mod Setup
pub mod Step
pub mod Frames
pub mod SetupTimer
