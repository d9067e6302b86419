-- ===== src/Store.antt =====
-- The stores of the relayer, services/relayer/src/store, in memory.
pub mod NonceStore
pub mod Idempotency
pub mod Replay
pub mod Cache
