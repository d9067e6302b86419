-- ===== src/Dashboard/TxPolling.antt =====
-- Polling for a transaction: apps/web-dashboard/src/services/tx-polling.ts. What an attempt gets from
-- the network is an argument, by the number of the attempt, and so is what `isStopped` answers.
use ancore.Common.{
  ℕ, zero, suc, ◌+◌, Bool, true, false, Option, none, some, List, [], ◌∷◌, ◌++◌, Text, codes,
  text_beq, leb, ◌||◌, if◌then◌else◌, get_or,
}

pub data TransactionPollStatus : Type 0 where
  confirmed : ℕ → ℕ → TransactionPollStatus
  pending : TransactionPollStatus
  failed : Option Text → TransactionPollStatus

pub record TransactionPollResult : Type 0 where
  pub status : TransactionPollStatus
  pub attempts : ℕ

-- The answer of Horizon: an error, a response that is not ok (404 among them), or the transaction with
-- `successful`, `ledger` and its time.
pub data HorizonReply : Type 0 where
  throws : HorizonReply
  not_ok : HorizonReply
  tx : Bool → ℕ → ℕ → HorizonReply

unfoldable pub check_horizon_status : HorizonReply → Option TransactionPollStatus
check_horizon_status throws = none
check_horizon_status not_ok = some pending
check_horizon_status (tx successful ledger created_at) =
    if successful
    then some (confirmed ledger created_at)
    else some (failed (some (codes "Transaction failed on network")))

-- The answer of the relayer, with `status`, `ledger` and `error` of its body.
pub data RelayerReply : Type 0 where
  throws : RelayerReply
  not_ok : RelayerReply
  body : Text → Option ℕ → Option Text → RelayerReply

-- A missing token is an error too.
unfoldable pub check_relayer_status : Bool → ℕ → RelayerReply → Option TransactionPollStatus
check_relayer_status false now reply = none
check_relayer_status true now RelayerReply.throws = none
check_relayer_status true now RelayerReply.not_ok = some pending
check_relayer_status true now (body status ledger error) =
    if text_beq status (codes "confirmed") || text_beq status (codes "success")
    then some (confirmed (get_or ledger 0) now)
    else if text_beq status (codes "failed")
    then some (failed (some (get_or error (codes "Relayer job failed"))))
    else some pending

-- An attempt that ends the loop.
abbrev pub decided : Option TransactionPollStatus → Option TransactionPollStatus
decided none = none
decided (some pending) = none
decided (some (confirmed l t)) = some (confirmed l t)
decided (some (failed e)) = some (failed e)

unfoldable pub timed_out : Text → ℕ → TransactionPollResult
timed_out message max_attempts = record {
  status = if leb max_attempts 1 then pending else failed (some message);
  attempts = max_attempts;
}

-- The loop of pollHorizonTransaction and of pollRelayerJob, `left` rounds before its end.
unfoldable pub poll_from :
    (ℕ → Option TransactionPollStatus) → Text → ℕ → ℕ → ℕ → TransactionPollResult
unfolding timed_out
poll_from check message max_attempts zero attempt = timed_out message max_attempts
poll_from check message max_attempts (suc left) attempt =
    let rest = poll_from check message max_attempts left (attempt + 1) in
    elim (decided (check attempt)) [
      | none ↦ rest
      | some status ↦ record { status = status; attempts = attempt + 1 }
    ]

unfoldable pub poll_horizon_transaction : (ℕ → HorizonReply) → ℕ → TransactionPollResult
unfolding poll_from check_horizon_status
poll_horizon_transaction reply max_attempts =
    poll_from (λ i. check_horizon_status (reply i)) (codes "Transaction polling timed out")
      max_attempts max_attempts 0

unfoldable pub poll_relayer_job : Bool → (ℕ → ℕ) → (ℕ → RelayerReply) → ℕ → TransactionPollResult
unfolding poll_from check_relayer_status
poll_relayer_job has_token now reply max_attempts =
    poll_from (λ i. check_relayer_status has_token (now i) (reply i))
      (codes "Relayer job polling timed out") max_attempts max_attempts 0

-- One poll of the controller: a single attempt.
unfoldable pub poll_once : (ℕ → Option TransactionPollStatus) → Text → ℕ → TransactionPollResult
unfolding poll_from
poll_once check message attempt = poll_from (λ _. check attempt) message 1 1 0

-- The loop of the controller, with the statuses that it reports. `stopped` answers before a poll, and
-- `stopped_then` after it.
unfoldable pub run_poll_loop :
    (ℕ → Option TransactionPollStatus)
    → Text
    → (ℕ → Bool)
    → (ℕ → Bool)
    → ℕ
    → ℕ
    → TransactionPollResult × List TransactionPollStatus
unfolding poll_once
run_poll_loop check message stopped stopped_then zero attempt =
    (record { status = failed (some (codes "Polling stopped or timed out")); attempts = 0 }, [])
run_poll_loop check message stopped stopped_then (suc left) attempt =
    let rest = run_poll_loop check message stopped stopped_then left (attempt + 1) in
    let poll = poll_once check message attempt in
    let reported : List TransactionPollStatus =
      if stopped_then attempt then [] else poll.status ∷ [] in
    if stopped attempt
    then (
      record { status = failed (some (codes "Polling stopped or timed out")); attempts = 0 },
      [],
    )
    else (elim (decided (some poll.status)) [
      | none ↦ (rest.0, reported ++ rest.1)
      | some status ↦ (poll, reported)
    ])
