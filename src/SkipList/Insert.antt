-- ===== src/SkipList/Insert.antt =====
-- src/SkipList.h, `insert`.
pub mod Spliced
pub mod Linked
pub mod Finished
pub mod Run
