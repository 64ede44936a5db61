-- ===== src/Fs.antt =====
-- The file system: the files of fs/ but for its log.
pub mod State
pub mod Sample
pub mod Inode
pub mod Path
pub mod Alloc
pub mod Files
pub mod Share
pub mod Unlink
pub mod Mkfs
pub mod ReadWrite
pub mod Task
mod Tests
