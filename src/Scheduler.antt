-- ===== src/Scheduler.antt =====
-- Scheduler/ of the engine: which session a job worker serves next.
pub mod ReadySessionQueue
pub mod Backpressure
