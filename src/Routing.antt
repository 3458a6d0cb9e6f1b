-- ===== src/Routing.antt =====
-- From a request to a work contract: the routes that a profile covers (src/runtime/readiness.ts),
-- the binding of a route (src/runtime/bindings.ts), and the contract (src/runtime/routing.ts).
pub mod Coverage
pub mod Contract
pub mod Floor
mod Tests
