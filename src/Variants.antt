-- ===== src/Variants.antt =====
-- Layers that take the place of src/ecal.cpp in measurements, in src/test.
pub mod Areas
pub mod Replicated
pub mod Plain
pub mod TypeTwo
pub mod TypeTwoLaws
