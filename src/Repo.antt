-- ===== src/Repo.antt =====
-- The repositories: each method with the SQL that it sends, over the tables of `Db`.
pub mod Row
pub mod Users
pub mod Messages
pub mod OfflineQueue
pub mod Sessions
pub mod Groups
pub mod Receipts
pub mod Pending
pub mod Ordered
pub mod Atomic
