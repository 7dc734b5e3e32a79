-- ===== src/Transactions.antt =====
-- internal/service/notification: transactional notifications, and the task that asks the business
-- whether a transaction that is still open was committed.
pub mod Check
pub mod Loop
pub mod Settled
pub mod Exhausted
pub mod Sorted
pub mod Service
mod Tests
