-- ===== src/Local.antt =====
-- The client's local store: noknowledge/core/store.py.
pub mod Schema
pub mod Contacts
pub mod Messages
pub mod Outbox
pub mod Cache
pub mod Cursors
mod Tests
