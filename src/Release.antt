-- ===== src/Release.antt =====
-- The deterministic release incident, apps/api/app/scenario/release.py.
pub mod State
pub mod Clock
pub mod Inspect
pub mod Attest
pub mod Probe
pub mod Snapshot
pub mod Policy
pub mod Rebuild
pub mod Actions
pub mod Verify
pub mod Execute
pub mod Audit
pub mod Sequences
pub mod Contract
pub mod Report
pub mod Rebuilds
pub mod Growth
mod Tests
pub mod Admission
pub mod Transitions
pub mod Handled
pub mod Acting
pub mod Outcomes
pub mod Frame
pub mod Bounds
pub mod Accounts
pub mod Deployment
pub mod Staging
pub mod Trust
