-- ===== src/Core.antt =====
-- The client's core: noknowledge/core.
pub mod Dicts
pub mod Channel
pub mod Sync
pub mod Attachments
pub mod Inbox
pub mod Card
pub mod Arrival
mod Tests
pub mod History
