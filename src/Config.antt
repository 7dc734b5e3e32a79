-- ===== src/Config.antt =====
-- internal/repository/config.go with its caches: the configurations of the businesses, looked up in
-- the memory of the process, in Redis and in the database.
pub mod Entities
pub mod Cache
pub mod Local
pub mod Redis
pub mod Dao
pub mod Repository
pub mod Coherence
pub mod Batches
pub mod Preload
pub mod Watch
pub mod Saves
mod Tests
