-- ===== src/Vfs.antt =====
-- kernel/fs/vfs: open files, tables of file descriptors, inodes, directory entries and paths.
pub mod File
pub mod FdTable
pub mod Inode
pub mod Open
pub mod Dentry
pub mod Mount
pub mod Path
