-- ===== src/Redis.antt =====
-- redis/: Redis data structures over the database.
pub mod Meta
pub mod Types
pub mod Part
pub mod Hashes
pub mod Sets
pub mod Lists
pub mod SortedSets
