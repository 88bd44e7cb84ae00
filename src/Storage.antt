-- ===== src/Storage.antt =====
-- src/fs/KVStore.cpp and src/fs/EntryList.cpp: what both metadata stores keep their data in.
pub mod KvStore
pub mod EntryList
pub mod Entries
