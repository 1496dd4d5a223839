-- ===== src/Api.antt =====
-- What the services share: results and exceptions, the third-party libraries as an interface,
-- the messages between actors, and the JSON-RPC envelope (modules/stream-api/src).
pub mod Action
pub mod Libraries
pub mod Rpc
pub mod Message
pub mod Database
pub mod Effects
pub mod Answers
