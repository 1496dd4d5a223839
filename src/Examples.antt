-- ===== src/Examples.antt =====
-- The services at concrete inputs.
mod Users
mod Router
mod Devices
mod Subscriptions
mod Rpc
mod Core
mod Platform
mod Relay
mod Graph
mod Http
mod Actors
