-- ===== src/Ecal.antt =====
-- The erasure coding layer: src/ecal.cpp, include/ecal.hpp, include/datablock.hpp.
pub mod Code
pub mod Layout
pub mod Blocks
pub mod Recovery
pub mod Refinement
pub mod Transfers
pub mod Lending
pub mod Borrowed
pub mod ReedSolomon
