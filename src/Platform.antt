-- ===== src/Platform.antt =====
-- The platform, to which managers connect: modules/stream-platform/src.
pub mod Managers
pub mod Pipeline
pub mod Profile
pub mod Router
