-- ===== src/Kernel.antt =====
-- kernel/: processes, scheduling, messages, the clock and the descriptors.
pub mod Proc
pub mod Sample
pub mod Sched
pub mod Ipc
pub mod Clock
pub mod Hd
pub mod Protect
pub mod KernelMap
pub mod Start
