-- ===== src/Scheduling.antt =====
-- internal/pkg/loopjob and internal/service/scheduler: the loops that hold a distributed lock, the
-- limit on the tables that one process works on, and the schedulers that run in these loops.
pub mod Locks
pub mod Infinite
pub mod Sharded
pub mod Ready
pub mod Held
pub mod Permits
pub mod Ending
mod Tests
