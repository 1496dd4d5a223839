-- ===== src/Core.antt =====
-- The core on which the actors run: modules/stream-core.
pub mod MailQueue
pub mod Executor
pub mod Graph
pub mod Space
pub mod Group
pub mod Actor
