-- ===== src/Sched.antt =====
-- kernel/sched: process numbers, the process table, signals.
pub mod Pid
pub mod SigSet
pub mod Signal
pub mod Queue
