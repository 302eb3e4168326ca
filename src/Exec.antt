-- ===== src/Exec.antt =====
-- Programs: src/exec.
pub mod Elf
