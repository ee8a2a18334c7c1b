-- ===== src/Db.antt =====
-- The key-value store: the parts of DB/ that have code.
pub mod Slice
pub mod Key
pub mod Arena
pub mod MemTable
pub mod Status
pub mod Old
pub mod Comparator
pub mod Stats
pub mod SkipList
pub mod Interface
