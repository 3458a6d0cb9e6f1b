-- ===== src/Health.antt =====
-- The health of a binding at a task trait (src/runtime/binding-health.ts): observations of its runs,
-- quarantine, and recovery by canaries.
pub mod Evidence
pub mod Evaluate
pub mod Limits
pub mod Recovery
pub mod Snapshots
mod Tests
