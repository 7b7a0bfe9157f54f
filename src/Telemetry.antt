-- ===== src/Telemetry.antt =====
-- services/telemetry-ingester: the score of a run, the buffer of events and the leaderboard.
pub mod Score
pub mod Ingester
pub mod Table
pub mod Connect
pub mod Consumer
pub mod Shutdown
mod Tests
