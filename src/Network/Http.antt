-- ===== src/Network/Http.antt =====
-- The HTTP server of modules/stream-providers/src/http, without the calls of the network library.
pub mod Target
pub mod Session
pub mod Server
