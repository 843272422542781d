-- ===== src/Sync.antt =====
-- sync/: the change feed and the per-user replicas.
pub mod Keys
pub mod Merge
pub mod Wal
pub mod Policy
pub mod Groups
pub mod Replica
pub mod Replay
pub mod Rebuild
