-- ===== src/Relay.antt =====
-- The relay: noknowledge/server.
pub mod Schema
pub mod Mailboxes
pub mod Messages
pub mod Prekeys
pub mod Blobs
pub mod Housekeeping
pub mod Run
pub mod Sound
pub mod Queue
pub mod Later
pub mod OneTime
pub mod Idle
pub mod Limiter
pub mod Security
pub mod Http
pub mod Routes
mod Tests
