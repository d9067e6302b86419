-- ===== src/Examples.antt =====
-- Tests: concrete inputs at which the theorems are applied.
mod Relay
mod Queue
mod Worker
mod Scheduler
mod Polling
mod Store
mod Network
mod Encoding
mod Vault
mod Wallet
mod Payouts
mod Dashboard
mod Server
mod Sdk
mod Allowlist
mod Signed
