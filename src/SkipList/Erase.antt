-- ===== src/SkipList/Erase.antt =====
-- src/SkipList.h, `erase`.
pub mod Spliced
pub mod Lowered
pub mod Listed
pub mod Run
