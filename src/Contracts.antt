-- ===== src/Contracts.antt =====
-- The data that the runtime's parts exchange (src/runtime/contracts.ts, src/runtime/failures.ts).
mod Task
mod Models
mod Outcome
mod Paths
mod Tests
pub use Task.*
pub use Models.*
pub use Outcome.*
unfoldable pub use Paths.*
