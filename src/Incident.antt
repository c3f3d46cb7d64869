-- ===== src/Incident.antt =====
-- The deterministic incident simulation, apps/api/app/scenario/incident.py.
pub mod State
pub mod Clock
pub mod Readings
pub mod Observe
pub mod Probes
pub mod Actions
pub mod Snapshots
pub mod Rollback
pub mod Verify
pub mod Execute
pub mod Admission
pub mod Gaps
pub mod Audit
pub mod Report
pub mod Relation
pub mod Handled
pub mod Transitions
pub mod Bounds
pub mod Accounts
pub mod Order
pub mod Staging
pub mod Contract
pub mod Recovery
pub mod Alerts
pub mod Policy
pub mod Samples
mod Tests
