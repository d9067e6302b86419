-- ===== src/Dashboard.antt =====
-- Services of the dashboard: apps/web-dashboard/src.
pub mod TxPolling
pub mod Confirmation
