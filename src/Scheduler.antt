-- ===== src/Scheduler.antt =====
-- infrastructure/control-plane/scheduler: the queue of ready jobs and their assignment to workers.
pub mod Queue
pub mod Assignment
pub mod Tick
