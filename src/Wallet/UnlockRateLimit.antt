-- ===== src/Wallet/UnlockRateLimit.antt =====
-- apps/extension-wallet/src/background/unlock-rate-limit.ts. What the session storage holds under the
-- key is `none` where there is nothing, no session storage, or a text of another shape.
use ancore.Common.{
  ℕ, ◌+◌, ◌-◌, ◌*◌, ◌/◌, ◌^◌, min, Bool, true, false, not, Option, none, some, if◌then◌else◌, ltb,
  leb, ◌==◌,
}

abbrev pub unlock_max_attempts : ℕ
unlock_max_attempts = 5

abbrev pub unlock_base_backoff_ms : ℕ
unlock_base_backoff_ms = 1000

abbrev pub unlock_max_backoff_ms : ℕ
unlock_max_backoff_ms = 60000

pub record UnlockAttemptState : Type 0 where
  pub failed_attempts : ℕ
  pub locked_until : Option ℕ

abbrev pub default_unlock_attempt_state : UnlockAttemptState
default_unlock_attempt_state = record { failed_attempts = 0; locked_until = none }

-- The message is told by the time.
pub record UnlockRateLimitResult : Type 0 where
  pub locked : Bool
  pub retry_after_ms : ℕ

unfoldable pub calculate_unlock_backoff_ms : ℕ → ℕ
calculate_unlock_backoff_ms failed_attempts =
    if ltb failed_attempts unlock_max_attempts
    then 0
    else min (unlock_base_backoff_ms * 2 ^ (failed_attempts - unlock_max_attempts))
        unlock_max_backoff_ms

-- The number of seconds of `formatRetryMessage`.
unfoldable pub retry_seconds : ℕ → ℕ
retry_seconds retry_after_ms =
    let seconds = (retry_after_ms + 999) / 1000 in if leb seconds 1 then 1 else seconds

unfoldable pub check_unlock_rate_limit : UnlockAttemptState → ℕ → UnlockRateLimitResult
check_unlock_rate_limit state now = elim state.locked_until [
  | none ↦ record { locked = false; retry_after_ms = 0 }
  | some until ↦
      if ltb now until
      then record { locked = true; retry_after_ms = until - now }
      else record { locked = false; retry_after_ms = 0 }
]

unfoldable pub record_unlock_failure : UnlockAttemptState → ℕ → UnlockAttemptState
unfolding calculate_unlock_backoff_ms
record_unlock_failure state now =
    let failed_attempts = state.failed_attempts + 1 in
    let backoff_ms = calculate_unlock_backoff_ms failed_attempts in
    if backoff_ms == 0
    then record { failed_attempts = failed_attempts; locked_until = none }
    else record { failed_attempts = failed_attempts; locked_until = some (now + backoff_ms) }

-- `loadUnlockAttemptState`
unfoldable pub load_unlock_attempt_state : Option UnlockAttemptState → ℕ → UnlockAttemptState
unfolding check_unlock_rate_limit
load_unlock_attempt_state none now = default_unlock_attempt_state
load_unlock_attempt_state (some state) now =
    let limit = check_unlock_rate_limit state now in
    elim state.locked_until [
      | none ↦ state
      | some until ↦ if not limit.locked then default_unlock_attempt_state else state
    ]

-- `saveUnlockAttemptState`: nothing is kept where there is no session storage.
unfoldable pub save_unlock_attempt_state :
    Bool → UnlockAttemptState → Option UnlockAttemptState → Option UnlockAttemptState
save_unlock_attempt_state has_session state stored = if has_session then some state else stored
