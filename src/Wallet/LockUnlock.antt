-- ===== src/Wallet/LockUnlock.antt =====
-- apps/extension-wallet/src/background/handlers/lock-unlock.ts. What the vault answers to the password,
-- `none` where it throws, is an argument, and so are the settings and whether the wallet is set up.
-- The storage does not fail. The clock is read anew for the load, the check, the failure or the session,
-- and the check of the failure.
use ancore.Common.{ℕ, Bool, true, false, not, Option, none, some, Text, length, if◌then◌else◌, ◌==◌}
use ancore.Wallet.UnlockRateLimit.{
  UnlockAttemptState, default_unlock_attempt_state, check_unlock_rate_limit, record_unlock_failure,
  load_unlock_attempt_state, save_unlock_attempt_state,
}
use ancore.Wallet.SessionState.{
  SessionState, get_auto_lock_ttl_ms, persist_unlock_session, set_background_session_unlocked,
  clear_unlock_session,
}

-- `auth_unlocked` is `isUnlocked` of the authentication state that is stored.
pub record Background : Type 0 where
  pub attempts : Option UnlockAttemptState
  pub session : SessionState
  pub auth_unlocked : Bool

pub record UnlockResponse : Type 0 where
  pub success : Bool
  pub retry_after_ms : Option ℕ

abbrev pub no_success : UnlockResponse
no_success = record { success = false; retry_after_ms = none }

unfoldable pub execute_lock_wallet : Background → Bool × Background
unfolding clear_unlock_session set_background_session_unlocked
execute_lock_wallet b = (
  true,
  record {
    attempts = b.attempts;
    session = clear_unlock_session (set_background_session_unlocked false b.session);
    auth_unlocked = false;
  },
)

-- The password is wrong.
unfoldable pub reject_password :
    Bool → ℕ → ℕ → UnlockAttemptState → Background → UnlockResponse × Background
unfolding record_unlock_failure save_unlock_attempt_state check_unlock_rate_limit
reject_password has_session now recheck_now attempt_state b =
    let next_state = record_unlock_failure attempt_state now in
    let lockout = check_unlock_rate_limit next_state recheck_now in
    (
      if lockout.locked
          then record { success = false; retry_after_ms = some lockout.retry_after_ms }
          else no_success,
      record {
        attempts = save_unlock_attempt_state has_session next_state b.attempts;
        session = b.session;
        auth_unlocked = b.auth_unlocked;
      },
    )

-- The password is right.
unfoldable pub accept_password : Bool → Option ℕ → ℕ → Background → UnlockResponse × Background
unfolding save_unlock_attempt_state persist_unlock_session get_auto_lock_ttl_ms
accept_password has_session auto_lock_minutes now b = (
  record { success = true; retry_after_ms = none },
  record {
    attempts = save_unlock_attempt_state has_session default_unlock_attempt_state b.attempts;
    session = persist_unlock_session (get_auto_lock_ttl_ms auto_lock_minutes) now b.session;
    auth_unlocked = true;
  },
)

-- The handler of `UNLOCK_WALLET`.
unfoldable pub unlock_wallet :
    Bool
    → Option ℕ
    → Bool
    → Text
    → (Text → Option Bool)
    → ℕ
    → ℕ
    → ℕ
    → ℕ
    → Background
    → UnlockResponse × Background
unfolding load_unlock_attempt_state check_unlock_rate_limit reject_password accept_password
    clear_unlock_session
unlock_wallet has_session auto_lock_minutes has_onboarded password vault_unlock load_now check_now
      now recheck_now b =
    if length password == 0
    then (no_success, b)
    else (let attempt_state = load_unlock_attempt_state b.attempts load_now in
        let rate_limit = check_unlock_rate_limit attempt_state check_now in
        if rate_limit.locked
        then (record { success = false; retry_after_ms = some rate_limit.retry_after_ms }, b)
        else if not has_onboarded
        then (no_success, b)
        else (elim (vault_unlock password) [
          | some unlocked ↦
              if unlocked
              then accept_password has_session auto_lock_minutes now b
              else reject_password has_session now recheck_now attempt_state b
          | none ↦ (
            no_success,
            record {
              attempts = b.attempts;
              session = clear_unlock_session b.session;
              auth_unlocked = b.auth_unlocked;
            },
          )
        ]))
