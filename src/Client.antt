-- ===== src/Client.antt =====
-- The client: src/fs/LocofsClient.cpp and the cache of include/fs/lru_cache.h.
pub mod Cache
pub mod CacheLaws
pub mod CacheThreads
pub mod Cluster
pub mod Keys
pub mod Found
pub mod Calls
pub mod Created
pub mod Transfer
pub mod TransferLaws
pub mod Bytes
pub mod FileBytes
pub mod TurnBytes
pub mod WriteBytes
pub mod Files
pub mod ReadBack
pub mod Sized
pub mod Written
pub mod Mount
pub mod Layered
pub mod LayeredPages
pub mod LayeredLoops
pub mod LayeredFile
pub mod Coded
pub mod CodedFile
