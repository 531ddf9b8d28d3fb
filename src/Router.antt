-- ===== src/Router.antt =====
-- The hybrid router: internal/tunnel/hybrid_router.go.
pub mod Requests
pub mod Routing
pub mod Waiting
mod Counters
mod Answers
mod Tests
