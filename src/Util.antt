-- ===== src/Util.antt =====
-- The helpers of the kernel, kernel/util.
pub mod Memory
pub mod Qstr
pub mod Radix
pub mod Hashtable
