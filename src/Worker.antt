-- ===== src/Worker.antt =====
-- The worker of the relayer, services/relayer/src/workers.
pub mod QueueWorker
pub mod InFlight
pub mod Invariant
pub mod Turns
