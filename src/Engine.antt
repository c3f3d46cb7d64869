-- ===== src/Engine.antt =====
-- The run engine, apps/api/app/runner/engine.py.
pub mod Guards
pub mod Visible
pub mod Shown
pub mod Commands
pub mod State
pub mod Sandboxed
pub mod Handlers
pub mod Execute
pub mod Contained
pub mod Process
pub mod Directed
pub mod Driven
pub mod Batches
pub mod Milestones
pub mod Gaps
pub mod Finish
pub mod Budget
pub mod Overrides
pub mod Limits
pub mod Session
pub mod Loop
pub mod Keeping
pub mod Counting
pub mod Rounds
pub mod Ends
pub mod Samples
mod Tests
