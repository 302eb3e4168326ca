-- ===== src/Mm.antt =====
-- The memory management of the kernel: src/mm.
pub mod Address
pub mod Pmm
mod Tests
