-- ===== src/Examples/Dashboard.antt =====
-- A transaction that is confirmed at the second poll.
use ancore.Common.{ℕ, false, some, Option, codes, ◌≡◌, if◌then◌else◌, ◌==◌}
use ancore.Dashboard.TxPolling.{TransactionPollStatus, confirmed, pending, run_poll_loop}
use ancore.Dashboard.Confirmation.{first_decided, controlled, run_poll_loop_lem}

abbrev replies : ℕ → Option TransactionPollStatus
replies i = if i == 1 then some (confirmed 77 1000) else some pending

run_poll_loop_lem_example :
    (run_poll_loop replies (codes "timed out") (λ _. false) (λ _. false) 60 0).0
    ≡ controlled (first_decided replies 60 0)
run_poll_loop_lem_example = run_poll_loop_lem replies (codes "timed out") (λ _. false) 60 0
