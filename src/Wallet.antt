-- ===== src/Wallet.antt =====
-- The background of the extension, apps/extension-wallet/src/background: `UnlockRateLimit` is
-- unlock-rate-limit.ts, `SessionState` session-state.ts, `LockUnlock` handlers/lock-unlock.ts and
-- `ResponseQueue` handlers/external/response-queue.ts. `Allowlist` is stores/allowlist.ts of the
-- extension, and `BiometricLockout` the lockout of apps/mobile-wallet/src/security. The other modules have what is proved of them.
pub mod UnlockRateLimit
pub mod SessionState
pub mod LockUnlock
pub mod Throttling
pub mod Allowlist
pub mod Approved
pub mod Sanitized
pub mod ResponseQueue
pub mod Approvals
pub mod BiometricLockout
pub mod Lockouts
