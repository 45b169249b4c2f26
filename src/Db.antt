-- ===== src/Db.antt =====
-- db.go: the database.
pub mod State
pub mod Invariant
pub mod Append
pub mod Ops
pub mod Refine
pub mod Log
pub mod Durable
pub mod Load
pub mod Merge
pub mod Open
pub mod Close
pub mod Fold
