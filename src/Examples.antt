-- ===== src/Examples.antt =====
-- Tests: the theorems at concrete inputs, with the libraries of `Samples` and `SampleCode`.
pub mod Erasure
pub mod Metadata
pub mod FileStores
pub mod Slots
pub mod Configs
pub mod Starts
pub mod Variants
pub mod Clients
pub mod Files
pub mod Layered
pub mod Regions
pub mod Links
pub mod Queues
pub mod Erpc
pub mod Servers
pub mod Threads
