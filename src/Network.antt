-- ===== src/Network.antt =====
-- The web sockets: modules/stream-providers/src/ws and modules/stream-client/src/ws, without the
-- calls of the network library.
pub mod Session
pub mod Listener
pub mod Client
pub mod Http
