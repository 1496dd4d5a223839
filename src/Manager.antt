-- ===== src/Manager.antt =====
-- The manager: modules/stream-manager/src.
pub mod Users
pub mod Groups
pub mod GroupKeys
pub mod Connections
pub mod Subscriptions
pub mod Devices
pub mod Router
pub mod Pipeline
pub mod Platform
