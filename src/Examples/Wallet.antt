-- ===== src/Examples/Wallet.antt =====
-- An extension whose password was wrong four times.
use ancore.Common.{
  ℕ, ◌≤◌, ◌<◌, Bool, true, false, Option, none, some, Text, codes, text_eq, ◌≡◌, refl, arith,
}
use ancore.Wallet.SessionState.{SessionState}
use ancore.Wallet.LockUnlock.{Background, unlock_wallet}
use ancore.Wallet.Throttling.{Reached, unlock_wallet-waits}

abbrev closed : SessionState
closed = record { session_unlocked = false; stored = none }

abbrev fresh : Background
fresh = record { attempts = none; session = closed; auth_unlocked = false }

abbrev wrong : Text → Option Bool
wrong password = some false

abbrev after : Background → ℕ → Background
after b now = (unlock_wallet true none true (codes "guess") wrong now now now now b).1

abbrev fourth : Background
fourth = after (after (after (after fresh 1000) 2000) 3000) 4000

reached : Reached true 4000 fourth
reached =
    Reached.unlocks 3000 4000 4000 4000 _ none true (codes "guess") wrong
      (Reached.unlocks 2000 3000 3000 3000 _ none true (codes "guess") wrong
        (Reached.unlocks 1000 2000 2000 2000 _ none true (codes "guess") wrong
          (Reached.unlocks 0 1000 1000 1000 fresh none true (codes "guess") wrong
            (Reached.installed 0 closed false) (omega arith) (omega arith))
          (omega arith) (omega arith))
        (omega arith) (omega arith))
      (omega arith) (omega arith)

fifth :
    (unlock_wallet true none true (codes "guess") wrong 5000 5000 5000 5000 fourth).0.retry_after_ms
    ≡ some 1000
unfolding unlock_wallet
fifth = refl

unlock_wallet-waits_example : (0 < 1000) × (1000 ≤ 1000)
unlock_wallet-waits_example =
    unlock_wallet-waits 4000 5000 5000 5000 fourth none true (codes "guess") wrong 1000 reached
      (omega arith) (omega arith) fifth

-- Where the fifth lockout ends between the load and the check, the sixth failure locks for longer.
abbrev locked_once : Background
locked_once = after fourth 5000

longer :
    (unlock_wallet true none true
      (codes "guess")
      wrong
      5999
      6000
      6000
      6000
      locked_once).0.retry_after_ms
    ≡ some 2000
unfolding unlock_wallet
longer = refl
