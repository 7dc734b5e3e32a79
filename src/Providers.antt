-- ===== src/Providers.antt =====
-- internal/service/provider and internal/service/channel: choosing a provider, and its health.
pub mod Health
pub mod Balance
pub mod Channel
mod Tests
