-- ===== src/Sdk.antt =====
-- Helpers of packages/core-sdk/src.
pub mod Amount
pub mod Scaled
pub mod Normalized
