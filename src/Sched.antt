-- ===== src/Sched.antt =====
-- Scheduling: src/sched.
pub mod RoundRobin
pub mod RunQueue
pub mod Thread
pub mod Scheduler
