-- ===== src/Config.antt =====
-- src/config.cpp and include/config.hpp: the configuration of the cluster.
pub mod Load
pub mod Found
pub mod Machine
pub mod Start
pub mod Started
