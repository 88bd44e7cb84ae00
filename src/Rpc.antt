-- ===== src/Rpc.antt =====
-- src/network/rpc.cpp, include/network/rpc.hpp and include/network/message.hpp: calls between nodes over
-- the RDMA socket, the two listener threads with their queues, and the meeting of all nodes.
pub mod Message
pub mod Interface
pub mod Traffic
pub mod Delivery
pub mod Answers
pub mod Sync
pub mod Meeting
pub mod Progress
