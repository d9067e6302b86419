-- ===== src/Wallet/Throttling.antt =====
-- What holds of the attempts to unlock the extension, and of its session.
use ancore.Common.{
  ℕ, ◌+◌, ◌-◌, ◌≤◌, ◌<◌, Bool, true, false, Option, none, some, Text, if◌then◌else◌, ltb, ◌==◌, ◌≡◌,
  ◌⊎◌, ◌↔◌, inl, inr, refl, sym, subst, arith, Bool-cases,
}
use native.Mathlib.Decide.{dec_lt}
use ancore.Wallet.UnlockRateLimit.{
  UnlockAttemptState, default_unlock_attempt_state, calculate_unlock_backoff_ms,
  check_unlock_rate_limit, record_unlock_failure, load_unlock_attempt_state,
  save_unlock_attempt_state,
}
use ancore.Wallet.SessionState.{
  SessionState, persist_unlock_session, is_background_session_unlocked_async,
  get_remaining_unlock_session_ms, restarted,
}
use ancore.Wallet.LockUnlock.{Background, unlock_wallet, execute_lock_wallet}

-- With a lockout there are five failures, and its end is at most a second after the time given; without
-- one there are fewer.
abbrev pub CountedBy : ℕ → ℕ → Option ℕ → Type 0
CountedBy time n none = n < 5
CountedBy time n (some until) = (n ≡ 5) × (until ≤ time + 1000)

abbrev pub Counted : ℕ → UnlockAttemptState → Type 0
Counted time s = CountedBy time s.failed_attempts s.locked_until

abbrev pub AllCounted : ℕ → Option UnlockAttemptState → Type 0
AllCounted time none = CountedBy time 0 none
AllCounted time (some s) = Counted time s

later : (time now n : ℕ) (o : Option ℕ) → time ≤ now → CountedBy time n o → CountedBy now n o
later time now n none h c = c
later time now n (some until) h c = (c.0, omega (arith, c.1))

-- What is loaded: counted, and if it does not lock, without a lockout.
load-Counted :
    (time now : ℕ) (o : Option UnlockAttemptState)
    → time ≤ now
    → AllCounted time o
    → Counted now (load_unlock_attempt_state o now)
unfolding load_unlock_attempt_state
load-Counted time now none h c = omega arith
load-Counted time now (some s) h c = stored s.failed_attempts s.locked_until c
  where
    stored :
        (n : ℕ) (o : Option ℕ)
        → CountedBy time n o
        → Counted now (
            load_unlock_attempt_state (some (record { failed_attempts = n; locked_until = o })) now)
    stored n none d = d
    stored n (some until) d = elim (Bool-cases (ltb now until)) [
      | inl l ↦ rw l (later time now n (some until) h d)
      | inr l ↦ rw l (omega arith)
    ]

load_free :
    (now : ℕ) (o : Option UnlockAttemptState)
    → (check_unlock_rate_limit (load_unlock_attempt_state o now) now).locked ≡ false
    → (load_unlock_attempt_state o now).locked_until ≡ none
unfolding load_unlock_attempt_state check_unlock_rate_limit
load_free now none h = refl
load_free now (some s) h = stored s.failed_attempts s.locked_until h
  where
    stored :
        (n : ℕ) (o : Option ℕ)
        → (check_unlock_rate_limit
            (load_unlock_attempt_state
              (some (record { failed_attempts = n; locked_until = o }))
              now)
            now).locked
          ≡ false
        → (load_unlock_attempt_state
            (some (record { failed_attempts = n; locked_until = o }))
            now).locked_until
          ≡ none
    stored n none g = refl
    stored n (some until) g = ground arith

record-Counted :
    (s : UnlockAttemptState) (now : ℕ)
    → s.failed_attempts < 5
    → Counted now (record_unlock_failure s now)
unfolding record_unlock_failure calculate_unlock_backoff_ms
record-Counted s now h = elim (dec_lt (s.failed_attempts + 1) 5) [
  | yes q ↦ let z : ltb (s.failed_attempts + 1) 5 ≡ true = ground arith in rw z (omega arith)
  | no q ↦
      let five : s.failed_attempts + 1 ≡ 5 = omega arith in
      subst (λ m. Counted now (failed m)) (sym five) (refl, omega arith)
]
  where
    failed : ℕ → UnlockAttemptState
    failed m =
        if calculate_unlock_backoff_ms m == 0
        then record { failed_attempts = m; locked_until = none }
        else record {
          failed_attempts = m;
          locked_until = some (now + calculate_unlock_backoff_ms m);
        }

-- What an attempt leaves of the failures, where the load and the check read one time.
unlock_wallet-attempts :
    (has_session : Bool) (minutes : Option ℕ) (has_onboarded : Bool) (password : Text)
    (vault_unlock : Text → Option Bool) (read now recheck : ℕ) (b : Background)
    → let attempts' =
        (unlock_wallet has_session minutes has_onboarded password vault_unlock read read now recheck
          b).1.attempts in
      let loaded = load_unlock_attempt_state b.attempts read in
      (attempts' ≡ b.attempts)
      ⊎ ((attempts' ≡ some default_unlock_attempt_state)
          ⊎ (((check_unlock_rate_limit loaded read).locked ≡ false)
              × (attempts' ≡ some (record_unlock_failure loaded now))))
unfolding unlock_wallet save_unlock_attempt_state
unlock_wallet-attempts has_session minutes has_onboarded password vault_unlock read now recheck b =
    ground arith

-- The messages that the background answered since it was installed, in the order of their times. In each
-- unlock the load and the check read one time: no lockout ends between the two.
pub data Reached (has_session : Bool) : ℕ → Background → Type 0 where
  installed :
      (time : ℕ) (session : SessionState) (auth_unlocked : Bool)
      → Reached has_session time
          (record { attempts = none; session = session; auth_unlocked = auth_unlocked })
  locks :
      (time : ℕ) (b : Background)
      → Reached has_session time b
      → Reached has_session time (execute_lock_wallet b).1
  unlocks :
      (time read now recheck : ℕ) (b : Background) (minutes : Option ℕ) (has_onboarded : Bool)
      (password : Text) (vault_unlock : Text → Option Bool)
      → Reached has_session time b
      → time ≤ read
      → read ≤ now
      → Reached has_session now
          (unlock_wallet has_session minutes has_onboarded password vault_unlock read read now
            recheck b).1

all_later :
    (time now : ℕ) (o : Option UnlockAttemptState)
    → time ≤ now
    → AllCounted time o
    → AllCounted now o
all_later time now none h c = c
all_later time now (some s) h c = later time now s.failed_attempts s.locked_until h c

free_below :
    (time : ℕ) (s : UnlockAttemptState)
    → Counted time s
    → s.locked_until ≡ none
    → s.failed_attempts < 5
free_below time s c e = below s.locked_until c e
  where
    below : (o : Option ℕ) → CountedBy time s.failed_attempts o → o ≡ none → s.failed_attempts < 5
    below none d f = d
    below (some until) d f = cc

Reached-AllCounted :
    {has_session : Bool} (time : ℕ) (b : Background)
    → Reached has_session time b
    → AllCounted time b.attempts
unfolding execute_lock_wallet
Reached-AllCounted time b (installed start session auth_unlocked) = omega arith
Reached-AllCounted time b' (locks at b r) = Reached-AllCounted at b r
Reached-AllCounted {has_session} end b'
      (unlocks time read now recheck b minutes has_onboarded password vault_unlock r h h') =
    let before = Reached-AllCounted time b r in
    let loaded = load_unlock_attempt_state b.attempts read in
    let to_now : time ≤ now = omega arith in
    elim (unlock_wallet-attempts has_session minutes has_onboarded password vault_unlock read now
      recheck b) [
        | inl e ↦ subst (AllCounted now) (sym e) (all_later time now b.attempts to_now before)
        | inr other ↦ elim other [
          | inl e ↦ subst (AllCounted now) (sym e) (omega arith)
          | inr (free, e) ↦ subst (AllCounted now) (sym e) (
              record-Counted loaded now (
                free_below read loaded (load-Counted time read b.attempts h before)
                  (load_free read b.attempts free)))
        ]
      ]

wait_bound :
    (s : UnlockAttemptState) (now : ℕ)
    → Counted now s
    → (check_unlock_rate_limit s now).locked ≡ true
    → (0 < (check_unlock_rate_limit s now).retry_after_ms)
      × ((check_unlock_rate_limit s now).retry_after_ms ≤ 1000)
unfolding check_unlock_rate_limit
wait_bound s now c l = bound s.locked_until c l
  where
    bound :
        (o : Option ℕ)
        → CountedBy now s.failed_attempts o
        → (check_unlock_rate_limit
            (record { failed_attempts = s.failed_attempts; locked_until = o })
            now).locked
          ≡ true
        → (0
            < (check_unlock_rate_limit
                (record { failed_attempts = s.failed_attempts; locked_until = o })
                now).retry_after_ms)
          × ((check_unlock_rate_limit
                (record { failed_attempts = s.failed_attempts; locked_until = o })
                now).retry_after_ms
              ≤ 1000)
    bound none d g = cc
    bound (some until) d g = ground arith

-- Where an answer asks to wait.
unlock_wallet-retry :
    (has_session : Bool) (minutes : Option ℕ) (has_onboarded : Bool) (password : Text)
    (vault_unlock : Text → Option Bool) (read now recheck ms : ℕ) (b : Background)
    → (unlock_wallet has_session minutes has_onboarded password vault_unlock read read now recheck
        b).0.retry_after_ms
      ≡ some ms
    → let loaded = load_unlock_attempt_state b.attempts read in
      let failed = record_unlock_failure loaded now in
      (((check_unlock_rate_limit loaded read).locked ≡ true)
        × (ms ≡ (check_unlock_rate_limit loaded read).retry_after_ms))
      ⊎ (((check_unlock_rate_limit loaded read).locked ≡ false)
          × ((check_unlock_rate_limit failed recheck).locked ≡ true)
          × (ms ≡ (check_unlock_rate_limit failed recheck).retry_after_ms))
unfolding unlock_wallet
unlock_wallet-retry has_session minutes has_onboarded password vault_unlock read now recheck ms b
      e =
    ground arith

-- As long as no lockout ends between the load of the failures and their check, which read the clock
-- apart: however often the unlock has failed, an answer asks to wait for a second at most. The waits do
-- not grow.
pub unlock_wallet-waits :
    {has_session : Bool} (time read now recheck : ℕ) (b : Background) (minutes : Option ℕ)
    (has_onboarded : Bool) (password : Text) (vault_unlock : Text → Option Bool) (ms : ℕ)
    → Reached has_session time b
    → time ≤ read
    → now ≤ recheck
    → (unlock_wallet has_session minutes has_onboarded password vault_unlock read read now recheck
        b).0.retry_after_ms
      ≡ some ms
    → (0 < ms) × (ms ≤ 1000)
unlock_wallet-waits {has_session} time read now recheck b minutes has_onboarded password
      vault_unlock ms r h h' e =
    let loaded = load_unlock_attempt_state b.attempts read in
    let counted = load-Counted time read b.attempts h (Reached-AllCounted time b r) in
    elim (unlock_wallet-retry has_session minutes has_onboarded password vault_unlock read now
      recheck ms b e) [
        | inl (l, m) ↦
            let w = wait_bound loaded read counted l in (omega (arith, w.0), omega (arith, w.1))
        | inr (free, l, m) ↦
            let failed = record_unlock_failure loaded now in
            let again =
              record-Counted loaded now
                (free_below read loaded counted (load_free read b.attempts free)) in
            let still = later now recheck failed.failed_attempts failed.locked_until h' again in
            let w = wait_bound failed recheck still l in (omega (arith, w.0), omega (arith, w.1))
      ]

-- A worker that was restarted takes the session to be unlocked until the time it was kept for is over,
-- and then drops it. A worker that goes on running takes it to be unlocked at any time.
pub persist_unlock_session-unlocked :
    (ttl_ms start now : ℕ) (s : SessionState)
    → let kept = persist_unlock_session ttl_ms start s in
      let (unlocked, s') = is_background_session_unlocked_async now (restarted kept) in
      ((unlocked ≡ true) ↔ (now < start + ttl_ms))
      × ((unlocked ≡ false) → s'.stored ≡ none)
      × (get_remaining_unlock_session_ms now kept ≡ start + ttl_ms - now)
      × ((is_background_session_unlocked_async now kept).0 ≡ true)
unfolding restarted persist_unlock_session is_background_session_unlocked_async
    get_remaining_unlock_session_ms
persist_unlock_session-unlocked ttl_ms start now s = ground arith
