-- ===== src/Netif.antt =====
-- include/network/netif.hpp and src/network/netif.cpp: the calls over the eRPC library, which carries the
-- requests and runs the handlers.
pub mod Sessions
pub mod Connected
pub mod Calls
pub mod Responses
pub mod Memory
pub mod Dispatch
pub mod Serving
