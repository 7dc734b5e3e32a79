-- ===== src/Delivery.antt =====
-- internal/service/sender: sending stored notifications over their channel, and storing the outcome.
pub mod Sender
pub mod Batches
mod Tests
