-- ===== src/Investigation.antt =====
-- The record of an investigation, apps/api/app/investigation.py.
pub mod Store
pub mod Numbering
pub mod History
mod Tests
