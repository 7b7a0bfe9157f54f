-- ===== src/Engine.antt =====
-- The stub matching engine of services/stub/main.go.
pub mod Heap
pub mod Clock
pub mod Message
pub mod Book
pub mod Levels
pub mod Session
pub mod Queues
pub mod Stream
mod Tests
