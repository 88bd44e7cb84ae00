-- ===== src/Bitmap.antt =====
-- include/bitmap.hpp: a lock-free set of free slots.
pub mod Bits
pub mod Words
pub mod Alloc
pub mod Loops
pub mod GivenBack
pub mod Owners
