-- ===== src/Client/Ids.antt =====
-- The ids of the messages that the client writes (`new_msg_id` of src/client/mod.rs): none is used twice.
pub mod Fresh
pub mod Subscriptions
pub mod Messages
pub mod Steps
pub mod Run
