-- ===== src/Scheduler/Outcome.antt =====
-- What the end of an execution leaves, and what callers can do to each other's transfers, in
-- services/relayer/src/scheduler/ScheduledTransferService.ts.
use ancore.Common.{
  ℕ, ◌+◌, ◌≤◌, true, false, none, some, get_or, [], ◌∷◌, Text, ◌≡◌, ◌↔◌, ◌≢◌, inl, inr, pos, arith,
  Option-cases, text_beq_iff, nat_eq,
}
use ancore.Common.Table
use ancore.Common.Table.{get-set_self}
use ancore.Relay.Types.{RelayExecuteResponse}
use ancore.Queue.Backoff.{Random, next_retry_after_bounds}
use ancore.Scheduler.Date.{ms_per_day}
use ancore.Scheduler.ScheduleUtils.{
  ScheduleFrequency, once, daily, weekly, monthly, compute_next_run_at,
}
use ancore.Scheduler.Recurrence.{compute_next_run_at-some, Gap}
use ancore.Scheduler.Transfers.{active, cancelled, failed, ScheduledTransfer, is_active}
use ancore.Scheduler.TransferStore.{
  ScheduledTransferStore, patched, get_by_id_for_caller, update_status, append_execution,
  update_after_execution, list_executions,
}
use ancore.Scheduler.Service.{
  pause, cancel, executions_for_caller, is_once, relay_request, log_of, patch_of_success,
  patch_of_failure, conclude, Notice, notice_of, on_max_failures_reached, max_consecutive_failures,
}
use ancore.Scheduler.Service
use ancore.Scheduler.Budget.{conclude-get}

Gap-later :
    (frequency : ScheduleFrequency) (from next : ℕ)
    → Gap frequency from next
    → from + ms_per_day ≤ next
Gap-later once from next g = absurd g
Gap-later daily from next g = omega (arith, g)
Gap-later weekly from next g = omega (arith, g)
Gap-later monthly from next g = omega (arith, g.2)

patch_of-success-later :
    (t : ScheduledTransfer) (now : ℕ)
    → is_active (patch_of_success t now).status ≡ true
    → now + ms_per_day ≤ (patch_of_success t now).next_run_at
unfolding patch_of_success
patch_of-success-later t now a =
    elim (Option-cases (compute_next_run_at now t.frequency t.end_at)) [
      | inl e ↦ absurd (ground (arith, a))
      | inr (n, e) ↦ ground (
        arith,
        Gap-later t.frequency now n (compute_next_run_at-some now t.frequency t.end_at n e).0,
      )
    ]

patch_of-failure-later :
    (t : ScheduledTransfer) (random : Random) (now : ℕ)
    → is_active (patch_of_failure t random now).status ≡ true
    → now ≤ (patch_of_failure t random now).next_run_at
unfolding patch_of_failure
patch_of-failure-later t random now a =
    ground (arith, next_retry_after_bounds random t.consecutive_failures now)

-- A transfer that is still active after an execution runs again no earlier than now: a day later at
-- least after a success.
pub conclude-later :
    (t u v : ScheduledTransfer) (r : RelayExecuteResponse) (random : Random) (id now stamp : ℕ)
    (s : ScheduledTransferStore)
    → Table.get t.id s.transfers ≡ some u
    → Table.get t.id (conclude t r random id now stamp s).transfers ≡ some v
    → v.status ≡ active
    → (now ≤ v.next_run_at) × (r.success ≡ true → now + ms_per_day ≤ v.next_run_at)
conclude-later t u v r random id now stamp s h k a = ground (
  arith,
  conclude-get t r random id now stamp s u h,
  patch_of-success-later t now,
  patch_of-failure-later t random now,
)

-- The end of an execution makes a transfer `failed` exactly where the response is an error, the
-- transfer recurs and its failures in a row reach five. Then, and only then, the notifier is told so.
pub conclude-failed :
    (t u v : ScheduledTransfer) (r : RelayExecuteResponse) (random : Random) (id now stamp : ℕ)
    (s : ScheduledTransferStore)
    → Table.get t.id s.transfers ≡ some u
    → Table.get t.id (conclude t r random id now stamp s).transfers ≡ some v
    → ((v.status ≡ failed) ↔ (
        (r.success ≡ false)
        × (t.frequency ≢ once)
        × (max_consecutive_failures ≤ v.consecutive_failures)))
      × ((v.status ≡ failed) ↔ (notice_of t r ≡ on_max_failures_reached))
unfolding notice_of patch_of_success patch_of_failure
conclude-failed t u v r random id now stamp s h k =
    ground (arith, conclude-get t r random id now stamp s u h)

-- An execution that ends, whatever the response, moves the nonce of the next relay request on by one.
-- The signature that a request is checked against is always that of the approved nonce.
pub relay_request-conclude :
    (t : ScheduledTransfer) (r : RelayExecuteResponse) (random : Random) (id now stamp n : ℕ)
    (s : ScheduledTransferStore)
    → (relay_request t s).0.nonce ≡ pos n
    → ((relay_request t (conclude t r random id now stamp s)).0.nonce ≡ pos (n + 1))
      × (get_or (relay_request t s).1 (pos n) ≡ pos t.relay_payload.nonce)
unfolding relay_request conclude update_after_execution append_execution list_executions log_of
relay_request-conclude t r random id now stamp n s h = ground (
  arith,
  h,
  get-set_self t.id (log_of t r id now ∷ get_or (Table.get t.id s.executions) []) s.executions,
)

-- Of a transfer that belongs to somebody else a caller sees nothing, and changes nothing.
pub foreign_caller :
    (id : ℕ) (caller_id : Text) (stamp : ℕ) (s : ScheduledTransferStore) (t : ScheduledTransfer)
    → Table.get id s.transfers ≡ some t
    → t.caller_id ≢ caller_id
    → (Service.get id caller_id s ≡ none)
      × (pause id caller_id stamp s ≡ (none, s))
      × (cancel id caller_id stamp s ≡ (none, s))
      × (executions_for_caller id caller_id s ≡ [])
unfolding Service.get pause cancel executions_for_caller get_by_id_for_caller
foreign_caller id caller_id stamp s t h n = ground (arith, text_beq_iff t.caller_id caller_id)

-- Where a transfer is cancelled between the relay request of an execution and its end, and the
-- execution succeeds and has a next run, the caller is told that it is cancelled, and after the end
-- the stored transfer is active.
pub cancel_overwritten :
    (t : ScheduledTransfer) (r : RelayExecuteResponse) (random : Random)
    (id now stamp stamp' next : ℕ) (s : ScheduledTransferStore)
    → Table.get t.id s.transfers ≡ some t
    → is_active t.status ≡ true
    → r.success ≡ true
    → compute_next_run_at now t.frequency t.end_at ≡ some next
    → let (told, s') = cancel t.id t.caller_id stamp s in
      let told' : ScheduledTransfer = record t { status = cancelled; updated_at = stamp } in
      let after : ScheduledTransfer = patched (patch_of_success t now) stamp' told' in
      (told ≡ some told')
      × (after.status ≡ active)
      × (Table.get t.id (conclude t r random id now stamp' s').transfers ≡ some after)
unfolding cancel get_by_id_for_caller update_status patch_of_success
cancel_overwritten t r random id now stamp stamp' next s h a ok e =
    let told' : ScheduledTransfer = record t { status = cancelled; updated_at = stamp } in
    ground (
      arith,
      text_beq_iff t.caller_id t.caller_id,
      conclude-get t r random id now stamp'
          (record s { transfers = Table.set t.id told' s.transfers }) told'
          (get-set_self t.id told' s.transfers),
    )
