-- ===== src/Xanlib/Bitset.antt =====
-- xanlib/src/xanbitset.c
pub mod Word
pub mod Words
pub mod Ops
pub mod Valid
pub mod Sound
pub mod Update
pub mod Ranges
pub mod Algebra
pub mod Copies
pub mod Subset
mod Tests
pub mod Queries
