-- ===== src/Fuse.antt =====
-- src/fs/fuse_shim.rs: the file system that answers the kernel, with its table of inodes. Each lock is
-- held by one call at a time and is never poisoned. The times, the owner and the group of a file,
-- which the system gives, are left out. A text is the list of its bytes.
pub mod Path
pub mod State
pub mod Insert
pub mod Request
pub mod Ancestors
pub mod Sound
pub mod Linked
pub mod Ensured
pub mod AddNode
pub mod Operations
pub mod Readback
pub mod Reply
mod Runs
