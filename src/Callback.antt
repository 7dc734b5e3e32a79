-- ===== src/Callback.antt =====
-- internal/service/notification/callback: telling the business what became of its notifications.
pub mod Service
pub mod Logs
pub mod Progress
pub mod Endless
mod Tests
