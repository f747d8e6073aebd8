-- ===== src/Tests.antt =====
-- The tests: a small platform, and every property at a concrete input.
pub mod Fixture
pub mod Setup
pub mod Modes
pub mod Connections
pub mod Sharing
pub mod Values
pub mod Services
pub mod Restart
pub mod Sessions
pub mod Clients
pub mod Entities
pub mod Server
pub mod Start
pub mod Colors
