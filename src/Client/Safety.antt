-- ===== src/Client/Safety.antt =====
-- The client does not panic (src/client): where it counts on a subscription to the standard events, it
-- knows its id.
pub mod Keeps
pub mod Messages
pub mod Run
