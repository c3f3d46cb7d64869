-- ===== src/Context.antt =====
-- The compaction of the message history, apps/api/app/runner/engine.py.
pub mod Codec
pub mod Shorten
pub mod Messages
pub mod Blocks
pub mod Compact
pub mod Grouping
pub mod Window
pub mod Compaction
mod Tests
