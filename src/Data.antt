-- ===== src/Data.antt =====
-- data/: log records and their encoding, and the data files that hold them.
pub mod Record
pub mod File
