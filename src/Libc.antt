-- ===== src/Libc.antt =====
-- lib/: the strings of lib/misc.c, printing, and the system calls.
pub mod Memory
pub mod Strings
pub mod Print
pub mod Calls
mod Tests
