-- ===== src/Merge.antt =====
-- bitcask-rs/src/merge.rs: the merge, and what it leaves for the next start.
pub mod Adopt
pub mod Hint
pub mod Rotate
pub mod Run
pub mod Closed
