-- ===== src/Relay.antt =====
-- The programs together: what one sends over its connection, another takes from it.
pub mod Request
pub mod Reply
pub mod Control
pub mod DeviceReply
pub mod Command
pub mod Session
pub mod Leaving
