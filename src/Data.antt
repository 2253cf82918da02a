-- ===== src/Data.antt =====
-- bitcask-rs/src/data: the log records and the data files.
pub mod LogRecord
pub mod DataFile
