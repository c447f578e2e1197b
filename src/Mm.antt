-- ===== src/Mm.antt =====
-- Memory management, kernel/mm.
pub mod Flags
pub mod Space
pub mod Slab
pub mod Page
pub mod PageTable
