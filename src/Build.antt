-- ===== src/Build.antt =====
-- services/build-service: the logs of a build pod, the life of a build, the consumer.
pub mod Logs
pub mod Truncate
pub mod Lifecycle
pub mod Pod
mod Tests
