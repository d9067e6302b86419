-- ===== src/Dashboard/Confirmation.antt =====
-- Which attempt decides a poll.
use ancore.Common.{
  ℕ, zero, suc, ◌+◌, Bool, false, Option, none, some, Text, codes, ◌≡◌, refl, arith, inl, inr,
  Option-cases,
}
use ancore.Dashboard.TxPolling.{
  TransactionPollStatus, confirmed, pending, failed, TransactionPollResult, decided, timed_out,
  poll_from, poll_once, run_poll_loop,
}

-- The first attempt that decides, of `n` from `i` on.
abbrev pub first_decided :
    (ℕ → Option TransactionPollStatus) → ℕ → ℕ → Option (ℕ × TransactionPollStatus)
first_decided check zero i = none
first_decided check (suc n) i = elim (decided (check i)) [
  | none ↦ first_decided check n (i + 1)
  | some status ↦ some (i, status)
]

abbrev pub ended : Text → ℕ → Option (ℕ × TransactionPollStatus) → TransactionPollResult
ended message max_attempts none = timed_out message max_attempts
ended message max_attempts (some (i, status)) = record { status = status; attempts = i + 1 }

-- A poll ends with the first attempt that is confirmed or failed, and counts the attempts up to it;
-- errors and pending answers are passed over, and without such an attempt it times out.
pub poll_from_lem :
    (check : ℕ → Option TransactionPollStatus) (message : Text) (max_attempts left i : ℕ)
    → poll_from check message max_attempts left i
      ≡ ended message max_attempts (first_decided check left i)
unfolding poll_from
poll_from_lem check message max_attempts zero i = refl
poll_from_lem check message max_attempts (suc left) i = elim (Option-cases (decided (check i))) [
  | inl e ↦ ground (arith, e, poll_from_lem check message max_attempts left (i + 1))
  | inr (s, e) ↦ ground (arith, e)
]

decided_twice :
    (c : Option TransactionPollStatus) {s : TransactionPollStatus}
    → decided c ≡ some s
    → decided (some s) ≡ some s
decided_twice none h = cc
decided_twice (some pending) h = cc
decided_twice (some (confirmed l t)) h = ground (arith, h)
decided_twice (some (failed e)) h = ground (arith, h)

poll_once-decided :
    (check : ℕ → Option TransactionPollStatus) (message : Text) (i : ℕ) {s : TransactionPollStatus}
    → decided (check i) ≡ some s
    → poll_once check message i ≡ record { status = s; attempts = 0 + 1 }
unfolding poll_once poll_from
poll_once-decided check message i h = ground (arith, h)

poll_once-undecided :
    (check : ℕ → Option TransactionPollStatus) (message : Text) (i : ℕ)
    → decided (check i) ≡ none
    → poll_once check message i ≡ record { status = pending; attempts = 1 }
unfolding poll_once poll_from timed_out
poll_once-undecided check message i h = ground (arith, h)

abbrev pub controlled : Option (ℕ × TransactionPollStatus) → TransactionPollResult
controlled none = record {
  status = failed (some (codes "Polling stopped or timed out"));
  attempts = 0;
}
controlled (some (i, status)) = record { status = status; attempts = 1 }

-- A controller that is not stopped ends with the status of the first attempt that is confirmed or
-- failed, of those allowed, and counts one attempt for it, whichever it was. Without one it reports a
-- failure and no attempt.
pub run_poll_loop_lem :
    (check : ℕ → Option TransactionPollStatus) (message : Text) (stopped_then : ℕ → Bool)
    (left i : ℕ)
    → (run_poll_loop check message (λ _. false) stopped_then left i).0
      ≡ controlled (first_decided check left i)
unfolding run_poll_loop
run_poll_loop_lem check message stopped_then zero i = refl
run_poll_loop_lem check message stopped_then (suc left) i =
    elim (Option-cases (decided (check i))) [
      | inl e ↦ ground (
        arith,
        e,
        poll_once-undecided check message i e,
        run_poll_loop_lem check message stopped_then left (i + 1),
      )
      | inr (s, e) ↦
          ground (arith, e, poll_once-decided check message i e, decided_twice (check i) e)
    ]
