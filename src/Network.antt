-- ===== src/Network.antt =====
-- The clients of the Stellar network, packages/stellar/src, and the retries of packages/core-sdk/src.
pub mod Retry
pub mod Attempts
pub mod Sequence
pub mod Fetching
pub mod SdkRetry
pub mod Agreement
pub mod Nonce
pub mod Drift
