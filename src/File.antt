-- ===== src/File.antt =====
-- The file metadata server: src/fs/FMStore.cpp, include/fs/FMStore.h, src/fs/FMServer.cpp.
pub mod Inode
pub mod Store
pub mod Operations
pub mod Server
pub mod Laws
pub mod Removal
