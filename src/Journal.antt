-- ===== src/Journal.antt =====
-- The broker's journal (src/runtime/journal.ts): a file of one record a line, each chained to the
-- one before it by a hash, and the same records in memory.
pub mod Records
pub mod Disk
pub mod Append
pub mod Chain
pub mod Reopening
pub mod Repeat
pub mod Refusals
pub mod Faults
pub mod Samples
mod Tests
