-- ===== src/Exec.antt =====
-- The executors under include/yk/exec.
pub mod CvQueue
pub mod Gate
pub mod AtomicQueue
pub mod WorkerPool
pub mod Stats
pub mod Tracker
pub mod Scheduler
