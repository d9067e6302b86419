-- ===== src/Scheduler.antt =====
-- The scheduler of the relayer, services/relayer/src/scheduler.
pub mod Date
pub mod Civil
pub mod Unique
pub mod ScheduleUtils
pub mod Setters
pub mod Months
pub mod Recurrence
pub mod Transfers
pub mod TransferStore
pub mod Service
pub mod Engine
pub mod Polling
pub mod Locks
pub mod Budget
pub mod Failing
pub mod Outcome
