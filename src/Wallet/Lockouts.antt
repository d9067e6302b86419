-- ===== src/Wallet/Lockouts.antt =====
-- How long apps/mobile-wallet/src/security/biometric-lockout-manager.ts locks.
use ancore.Common.{ℕ, ◌+◌, true, false, List, [], ◌∷◌, if◌then◌else◌, ltb, leb, ◌≡◌, arith}
use ancore.Wallet.BiometricLockout.{
  BiometricFailureReason, authentication_failed, BiometricLockoutManager, persisted, is_locked,
  initialize, count_failure, record_failure, is_timed_lockout_expired,
}

-- The failures with their reasons and times, one after the other.
abbrev pub record_all :
    List (BiometricFailureReason × ℕ) → BiometricLockoutManager → BiometricLockoutManager
record_all [] m = m
record_all ((reason, at) ∷ rs) m = record_all rs (record_failure reason at m)

failure-permanent :
    (reason : BiometricFailureReason) (at : ℕ) (m : BiometricLockoutManager)
    → m.state.permanently_locked ≡ true
    → (record_failure reason at m).state.permanently_locked ≡ true
unfolding record_failure count_failure
failure-permanent reason at m h = ground arith

failure-kept :
    (reason : BiometricFailureReason) (at : ℕ) (m : BiometricLockoutManager)
    → m.storage ≡ persisted m.state
    → (record_failure reason at m).storage ≡ persisted (record_failure reason at m).state
unfolding record_failure count_failure
failure-kept reason at m h = ground arith

permanent-locked :
    (m : BiometricLockoutManager) (now : ℕ)
    → m.state.permanently_locked ≡ true
    → m.storage ≡ persisted m.state
    → (is_locked now m.state ≡ true) × (is_locked now (initialize now m).state ≡ true)
unfolding is_locked initialize is_timed_lockout_expired
permanent-locked m now h kept = ground arith

-- After a permanent lockout that was stored, no further failures unlock at any time, and neither does a
-- start of the app.
pub record_all-permanent :
    (rs : List (BiometricFailureReason × ℕ)) (m : BiometricLockoutManager) (now : ℕ)
    → m.state.permanently_locked ≡ true
    → m.storage ≡ persisted m.state
    → (is_locked now (record_all rs m).state ≡ true)
      × (is_locked now (initialize now (record_all rs m)).state ≡ true)
record_all-permanent [] m now h kept = permanent-locked m now h kept
record_all-permanent ((reason, at) ∷ rs) m now h kept =
    record_all-permanent rs (record_failure reason at m) now (failure-permanent reason at m h)
      (failure-kept reason at m kept)

-- A failed authentication locks for the duration exactly if it is the third or a later one; an earlier
-- one leaves the lockout as it is. A lockout that is over does not reset the count: the next failure
-- locks again at once, unless the app was started in between.
pub record_failure-locks :
    (m : BiometricLockoutManager) (at now : ℕ)
    → m.state.permanently_locked ≡ false
    → let s = (record_failure authentication_failed at m).state in
      is_locked now s ≡ (
        if leb 3 (m.state.failed_attempts + 1) then ltb now (at + 30000) else is_locked now m.state)
unfolding is_locked record_failure count_failure
record_failure-locks m at now h = ground arith
