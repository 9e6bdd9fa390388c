-- ===== src/Core/History.antt =====
-- History bundles: noknowledge/core/history.py.
pub mod Items
pub mod Merge
pub mod Known
pub mod Steps
pub mod Moves
pub mod Keeps
pub mod Outcome
pub mod Again
pub mod Build
pub mod Budget
pub mod File
mod Tests
