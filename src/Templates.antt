-- ===== src/Templates.antt =====
-- The management of channel templates: internal/service/template/manage, internal/repository/template.go
-- and internal/repository/dao/template.go.
pub mod Backend
pub mod Manage
pub mod Review
pub mod Publishing
pub mod Entities
pub mod Dao
pub mod Repository
pub mod Grouping
pub mod Refused
mod Tests
