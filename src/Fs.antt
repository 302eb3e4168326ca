-- ===== src/Fs.antt =====
-- Files: src/fs.
pub mod Ramdisk
pub mod Vfs
