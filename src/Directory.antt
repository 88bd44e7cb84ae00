-- ===== src/Directory.antt =====
-- The directory metadata server: src/fs/DMStore.cpp, include/fs/DMStore.h, src/fs/DMServer.cpp.
pub mod Inode
pub mod Store
pub mod Operations
pub mod Server
pub mod Resolve
pub mod Create
pub mod Made
pub mod Root
pub mod Changes
