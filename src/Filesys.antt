-- ===== src/Filesys.antt =====
-- filesys: the file system.
pub mod FreeMap
pub mod Path
pub mod Fd
pub mod Cache
pub mod Inode
pub mod File
pub mod Directory
