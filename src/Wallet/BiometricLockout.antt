-- ===== src/Wallet/BiometricLockout.antt =====
-- apps/mobile-wallet/src/security/biometric-lockout-manager.ts and biometric-lockout.types.ts. What the
-- storage holds is `none` where there is nothing, and `corrupt` where it is not a state. The storage
-- does not fail.
use ancore.Common.{
  ℕ, ◌+◌, ◌-◌, Bool, true, false, ◌&&◌, not, Option, none, some, if◌then◌else◌, ltb, leb,
}

abbrev pub biometric_max_attempts : ℕ
biometric_max_attempts = 3

abbrev pub lockout_duration_ms : ℕ
lockout_duration_ms = 30000

pub data BiometricFailureReason : Type 0 where
  user_cancel authentication_failed biometric_not_enrolled biometric_not_available lockout
        lockout_permanent unknown :
      BiometricFailureReason

pub record BiometricLockoutState : Type 0 where
  pub failed_attempts : ℕ
  pub locked_until : Option ℕ
  pub last_failure_reason : Option BiometricFailureReason
  pub permanently_locked : Bool

abbrev pub default_lockout_state : BiometricLockoutState
default_lockout_state = record {
  failed_attempts = 0;
  locked_until = none;
  last_failure_reason = none;
  permanently_locked = false;
}

pub data Persisted : Type 0 where
  absent corrupt : Persisted
  persisted : BiometricLockoutState → Persisted

pub record BiometricLockoutManager : Type 0 where
  pub state : BiometricLockoutState
  pub storage : Persisted

abbrev pub persist : BiometricLockoutState → BiometricLockoutManager
persist s = record { state = s; storage = persisted s }

unfoldable pub reset_lockout : BiometricLockoutManager → BiometricLockoutManager
reset_lockout m = record { state = default_lockout_state; storage = absent }

unfoldable pub is_timed_lockout_expired : ℕ → BiometricLockoutState → Bool
is_timed_lockout_expired now s = elim s.locked_until [
  | none ↦ false
  | some until ↦ not s.permanently_locked && leb until now
]

abbrev pub clear_timed_lockout : BiometricLockoutState → BiometricLockoutState
clear_timed_lockout s = record {
  failed_attempts = 0;
  locked_until = none;
  last_failure_reason = none;
  permanently_locked = s.permanently_locked;
}

unfoldable pub initialize : ℕ → BiometricLockoutManager → BiometricLockoutManager
unfolding is_timed_lockout_expired reset_lockout
initialize now m = elim m.storage [
  | absent ↦ m
  | corrupt ↦ reset_lockout m
  | persisted s ↦
      if is_timed_lockout_expired now s
      then persist (clear_timed_lockout s)
      else record { state = s; storage = persisted s }
]

unfoldable pub is_locked : ℕ → BiometricLockoutState → Bool
is_locked now s =
    if s.permanently_locked
    then true
    else elim s.locked_until [ none ↦ false | some until ↦ ltb now until ]

-- A time of 0 is no lockout.
unfoldable pub remaining_lockout_ms : ℕ → BiometricLockoutState → ℕ
remaining_lockout_ms now s = elim s.locked_until [ none ↦ 0 | some until ↦ until - now ]

abbrev pub set_timed_lockout :
    BiometricFailureReason → ℕ → BiometricLockoutState → BiometricLockoutManager
set_timed_lockout reason now s = persist (record {
  failed_attempts = s.failed_attempts;
  locked_until = some (now + lockout_duration_ms);
  last_failure_reason = some reason;
  permanently_locked = s.permanently_locked;
})

abbrev pub set_permanent_lockout :
    BiometricFailureReason → BiometricLockoutState → BiometricLockoutManager
set_permanent_lockout reason s = persist (record {
  failed_attempts = s.failed_attempts;
  locked_until = none;
  last_failure_reason = some reason;
  permanently_locked = true;
})

-- A failure that counts.
unfoldable pub count_failure :
    BiometricFailureReason → ℕ → BiometricLockoutState → BiometricLockoutManager
count_failure reason now s =
    let counted : BiometricLockoutState = record {
      failed_attempts = s.failed_attempts + 1;
      locked_until = s.locked_until;
      last_failure_reason = some reason;
      permanently_locked = s.permanently_locked;
    } in
    if leb biometric_max_attempts counted.failed_attempts
    then set_timed_lockout reason now counted
    else persist counted

unfoldable pub record_failure :
    BiometricFailureReason → ℕ → BiometricLockoutManager → BiometricLockoutManager
unfolding count_failure
record_failure lockout_permanent now m = set_permanent_lockout lockout_permanent m.state
record_failure lockout now m = set_timed_lockout lockout now m.state
record_failure user_cancel now m = m
record_failure authentication_failed now m = count_failure authentication_failed now m.state
record_failure biometric_not_enrolled now m = count_failure biometric_not_enrolled now m.state
record_failure biometric_not_available now m = count_failure biometric_not_available now m.state
record_failure unknown now m = count_failure unknown now m.state

unfoldable pub record_success : BiometricLockoutManager → BiometricLockoutManager
unfolding reset_lockout
record_success m = reset_lockout m
