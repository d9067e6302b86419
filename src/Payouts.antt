-- ===== src/Payouts.antt =====
-- The statements and the bulk payouts of the dashboard: apps/web-dashboard/src.
pub mod Csv
pub mod Statement
pub mod Cells
pub mod Amounts
pub mod Stroops
pub mod Key
pub mod Rows
pub mod Totals
pub mod Ids
pub mod Batch
pub mod Pool
pub mod Workers
pub mod Ending
pub mod Checkpoint
pub mod Resume
pub mod Reading
