-- ===== src/Durable.antt =====
-- bitcask-rs/src/db.rs: what a restart finds of what was written. `put` and the batch's commit
-- append to the logs, and `open` reads the logs back.
pub mod Records
pub mod Logged
pub mod Store
pub mod Gather
pub mod Commit
pub mod Lost
pub mod Opened
pub mod Reopen
pub mod Restart
pub mod Runs
