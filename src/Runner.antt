-- ===== src/Runner.antt =====
-- services/bot-runner: the sequences of orders, the load bot, its metrics, the correctness bot.
pub mod Sequence
pub mod Bot
pub mod Metrics
pub mod Correctness
pub mod Main
mod Tests
