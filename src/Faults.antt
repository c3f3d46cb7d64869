-- ===== src/Faults.antt =====
-- The scripted tool faults of a run, apps/api/app/runner/faults.py.
pub mod Rules
pub mod Controller
pub mod Schedule
pub mod Session
mod Tests
