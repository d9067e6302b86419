-- ===== src/Queue.antt =====
-- The job queue of the relayer, services/relayer/src/queue.
pub mod Types
pub mod Backoff
pub mod JobQueue
pub mod Invariant
pub mod Steps
pub mod Lifecycle
pub mod Dispatch
pub mod Handles
