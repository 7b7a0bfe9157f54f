-- ===== src/Orchestrator.antt =====
-- services/bot-orchestrator: one test, and the tests that run at once.
pub mod Jobs
pub mod Server
pub mod Consumer
pub mod Settings
mod Tests
