-- ===== src/Quota.antt =====
-- The quotas of the businesses: internal/service/quota, internal/repository/quota.go with its DAO, and
-- the counters of internal/repository/cache/redis/quota.go.
pub mod Counters
pub mod Reset
pub mod Laws
mod Tests
