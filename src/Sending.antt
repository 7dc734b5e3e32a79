-- ===== src/Sending.antt =====
-- internal/service/sendstrategy and internal/service/notification/send_notification.go: how a
-- notification that was accepted is stored, sent at once or left for the scheduler.
pub mod Strategy
pub mod Service
pub mod Dispatch
pub mod Retries
pub mod Tests
