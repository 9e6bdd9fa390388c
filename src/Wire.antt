-- ===== src/Wire.antt =====
-- The client's access to relays: noknowledge/wire.
pub mod Errors
pub mod Transport
pub mod Backend
pub mod Client
pub mod Pool
pub mod Replication
pub mod Discovery
pub mod Protocol
mod Tests
