-- ===== src/RunState.antt =====
-- The broker's journaled state (src/runtime/run-state.ts): the commands that its journal records,
-- the state that they are reduced to, and what holds of that state.
pub mod Commands
pub mod Execution
pub mod Publish
pub mod Guards
pub mod Reduce
pub mod Steps
pub mod Consistency
pub mod Evidence
pub mod Replay
pub mod History
pub mod Ending
pub mod Samples
mod Tests
pub mod Identity
pub mod Checks
pub mod Load
pub mod Loading
