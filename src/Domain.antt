-- ===== src/Domain.antt =====
-- internal/domain: the values that the services pass around, and their validation.
-- A Go string type with constants is a data type with a constructor for each constant and one for
-- any other text.
pub mod Strategy
pub mod Notification
pub mod Guards
pub mod Template
pub mod Provider
pub mod Tx
pub mod Windows
pub mod Catalog
pub mod Tests
