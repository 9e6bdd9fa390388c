-- ===== src/Relay/Routes.antt =====
-- The routes of the relay: noknowledge/server/routers.
pub mod Boxes
pub mod Chunks
pub mod Bundles
pub mod Refusals
pub mod Registration
pub mod Atomicity
mod Tests
