-- ===== src/Object.antt =====
-- Kernel objects: src/object.
pub mod Rights
pub mod Handle
pub mod HandleTable
pub mod Event
pub mod Channel
pub mod Timer
pub mod Job
pub mod Vmo
mod Tests
