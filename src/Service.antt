-- ===== src/Service.antt =====
-- src/client/service: the commands of a remote as service calls of Home Assistant.
pub mod Commands
pub mod Light
pub mod Climate
pub mod Devices
pub mod MediaPlayer
pub mod Call
