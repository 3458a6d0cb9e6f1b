-- ===== src/Pilot.antt =====
-- The pilot's event log and the state machine of a block (src/pilot).
pub mod Vocabulary
pub mod States
pub mod Events
pub mod Manifest
pub mod Codec
pub mod Errors
pub mod Rows
pub mod Machine
pub mod Log
pub mod Reduction
pub mod Handlers
pub mod Usage
pub mod Replay
pub mod Lifecycle
pub mod Transitions
pub mod Advances
pub mod Effects
pub mod Bounds
pub mod Progress
pub mod Invariant
pub mod Histories
pub mod Provenance
pub mod Sources
pub mod Outcome
pub mod Acceptance
pub mod Counts
pub mod Appends
mod Tests
