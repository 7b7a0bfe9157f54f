-- ===== src/Leaderboard.antt =====
-- services/leaderboard-ws: the hub of the WebSocket clients, and the ranked list.
pub mod Hub
pub mod Ranking
mod Tests
