-- ===== src/Daemon.antt =====
-- The broker's daemon (src/runtime/broker-daemon.ts): the state in memory, the journal it is
-- recovered from, the cache beside it, and the locks of its runs.
pub mod Recovery
pub mod Persist
pub mod Current
pub mod Recovering
pub mod Stale
pub mod Locks
pub mod Acceptance
mod Tests
