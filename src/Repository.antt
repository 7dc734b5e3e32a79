-- ===== src/Repository.antt =====
-- internal/repository: the notifications of the database, with the quota that is taken for each.
pub mod Entities
pub mod Notifications
pub mod Dao
pub mod Refunds
pub mod Unmarked
pub mod Tests
