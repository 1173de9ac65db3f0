-- ===== src/Sqlite.antt =====
-- The SQLite repository (dsvn-core/src/sqlite_repository.rs): its two tables, the delta trees and
-- their replay, the files of a repository, and the operations on them.
pub mod Table
pub mod Delta
pub mod Pending
pub mod Staging
pub mod Files
pub mod Cache
pub mod Reconstruct
pub mod History
pub mod Repo
pub mod Extend
pub mod Commit
pub mod Operations
pub mod Revisions
pub mod Kept
pub mod Divergence
pub mod RoundTrip
pub mod Initialize
pub mod Read
