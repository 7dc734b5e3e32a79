-- ===== src/Database.antt =====
-- internal/pkg/database and internal/event/failover: the health of the database, the pool that puts
-- statements off while it is ill, and the consumer that runs them later.
pub mod Monitor
pub mod History
pub mod Pool
pub mod Consumer
pub mod Undelivered
mod Tests
