-- ===== src/Async.antt =====
-- internal/infrastructure/async.
pub mod Queue
pub mod Scheduler
mod Tests
