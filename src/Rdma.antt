-- ===== src/Rdma.antt =====
-- include/network/rdma.hpp and src/network/rdma.cpp: the buffers of a peer, the ids of work requests,
-- which peers are alive, the log of the writes that a degraded group takes, how links are built and
-- lost, and how completions are polled.
pub mod Regions
pub mod WorkId
pub mod Peers
pub mod Socket
pub mod Events
pub mod Links
pub mod Registered
pub mod Loss
pub mod Completions
pub mod Contexts
