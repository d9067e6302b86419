-- ===== src/Server.antt =====
-- The process of the relayer around its services: services/relayer/src.
pub mod Shutdown
pub mod Draining
