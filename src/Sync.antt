-- ===== src/Sync.antt =====
-- The synchronization primitives of the kernel: src/sync.
pub mod WaitQueue
pub mod Event
