-- ===== src/Wallet/SessionState.antt =====
-- apps/extension-wallet/src/background/session-state.ts, with the record of
-- packages/wallet-shared/src/session.ts. Storage does not fail.
use ancore.Common.{
  ℕ, ◌+◌, ◌-◌, ◌*◌, ◌/◌, Bool, true, false, Option, none, some, if◌then◌else◌, ltb, leb, ◌==◌,
}

abbrev pub default_unlock_session_ttl_ms : ℕ
default_unlock_session_ttl_ms = 86400000

pub record UnlockSessionRecord : Type 0 where
  pub unlocked_at : ℕ
  pub expires_at : ℕ

-- The flag in memory, which a worker starts without, and the record in the session storage.
pub record SessionState : Type 0 where
  pub session_unlocked : Bool
  pub stored : Option UnlockSessionRecord

unfoldable pub is_unlock_session_valid : UnlockSessionRecord → ℕ → Bool
is_unlock_session_valid r now = ltb now r.expires_at

-- `autoLockMinutes` of the settings, `none` where it is no number.
unfoldable pub get_auto_lock_ttl_ms : Option ℕ → ℕ
get_auto_lock_ttl_ms none = default_unlock_session_ttl_ms
get_auto_lock_ttl_ms (some minutes) =
    if ltb 0 minutes then minutes * 60000 else default_unlock_session_ttl_ms

unfoldable pub persist_unlock_session : ℕ → ℕ → SessionState → SessionState
persist_unlock_session ttl_ms now s = record {
  session_unlocked = true;
  stored = some (record { unlocked_at = now; expires_at = now + ttl_ms });
}

unfoldable pub set_background_session_unlocked : Bool → SessionState → SessionState
set_background_session_unlocked unlocked s = record {
  session_unlocked = unlocked;
  stored = s.stored;
}

unfoldable pub clear_unlock_session : SessionState → SessionState
clear_unlock_session s = record { session_unlocked = false; stored = none }

unfoldable pub restore_unlock_session_from_storage : ℕ → SessionState → Bool × SessionState
unfolding is_unlock_session_valid
restore_unlock_session_from_storage now s = elim s.stored [
  | none ↦ (false, record { session_unlocked = false; stored = none })
  | some r ↦
      if is_unlock_session_valid r now
      then (true, record { session_unlocked = true; stored = some r })
      else (false, record { session_unlocked = false; stored = none })
]

unfoldable pub is_background_session_unlocked_async : ℕ → SessionState → Bool × SessionState
unfolding restore_unlock_session_from_storage
is_background_session_unlocked_async now s =
    if s.session_unlocked then (true, s) else restore_unlock_session_from_storage now s

unfoldable pub refresh_session_expiry : Option ℕ → ℕ → SessionState → SessionState
unfolding get_auto_lock_ttl_ms persist_unlock_session
refresh_session_expiry auto_lock_minutes now s =
    if s.session_unlocked
    then persist_unlock_session (get_auto_lock_ttl_ms auto_lock_minutes) now s
    else s

unfoldable pub get_remaining_unlock_session_ms : ℕ → SessionState → ℕ
unfolding is_unlock_session_valid
get_remaining_unlock_session_ms now s = elim s.stored [
  | none ↦ 0
  | some r ↦ if is_unlock_session_valid r now then r.expires_at - now else 0
]

-- The minutes of `formatRemainingLockTime`.
unfoldable pub remaining_lock_minutes : ℕ → ℕ
remaining_lock_minutes remaining_ms =
    if remaining_ms == 0
    then 0
    else let total = (remaining_ms + 59999) / 60000 in if leb total 1 then 1 else total

-- The worker is stopped and started: its memory is new, the session storage is kept.
unfoldable pub restarted : SessionState → SessionState
restarted s = record { session_unlocked = false; stored = s.stored }
