-- ===== src/Process.antt =====
-- Processes, their handles and their descriptors: src/process/mod.rs, table.rs and src/syscall/fd.rs.
pub mod Fd
pub mod Handles
pub mod Table
mod Tests
