-- ===== src/Scheduler/Service.antt =====
-- services/relayer/src/scheduler/ScheduledTransferService.ts, with the store in memory. The relay
-- service is a parameter with a state of its own; a call of it responds or throws. The metric and
-- the log are left out. Of the notifier, the calls are kept, as values.
use ancore.Common.{
  ℕ, ◌+◌, Bool, true, false, ◌||◌, not, Option, none, some, List, [], ◌∷◌, Text, ℤ, pos,
  if◌then◌else◌, leb, ltb, ◌==◌, length,
}
use ancore.Relay.Types.{RelayError, Message, RelayExecuteRequest, RelayExecuteResponse}
use ancore.Queue.Backoff.{Random, next_retry_after}
use ancore.Scheduler.ScheduleUtils.{ScheduleFrequency, once, compute_next_run_at, is_due}
use ancore.Scheduler.Transfers.{
  active, paused, cancelled, completed, failed, ScheduledTransfer, CreateScheduledTransferInput,
  succeeded, failed_run, is_active, is_over,
}
use ancore.Scheduler.TransferStore.{
  ScheduledTransferStore, Log, Patch, get_by_id_for_caller, update_status, list_executions,
  list_due, try_acquire_processing, release_processing, append_execution, update_after_execution,
  list_by_account,
}
use ancore.Scheduler.TransferStore

abbrev pub max_consecutive_failures : ℕ
max_consecutive_failures = 5

unfoldable pub create :
    CreateScheduledTransferInput
    → Text
    → ℕ
    → ℕ
    → ScheduledTransferStore
    → ScheduledTransfer × ScheduledTransferStore
create input caller_id id now s = TransferStore.create input caller_id id now s

unfoldable pub list : Text → Text → ScheduledTransferStore → List ScheduledTransfer
list account_address caller_id s = list_by_account account_address caller_id s

unfoldable pub get : ℕ → Text → ScheduledTransferStore → Option ScheduledTransfer
get id caller_id s = get_by_id_for_caller id caller_id s

unfoldable pub pause :
    ℕ → Text → ℕ → ScheduledTransferStore → Option ScheduledTransfer × ScheduledTransferStore
pause id caller_id stamp s = elim (get_by_id_for_caller id caller_id s) [
  | none ↦ (none, s)
  | some t ↦ if not (is_active t.status) then (none, s) else update_status id paused stamp s
]

unfoldable pub cancel :
    ℕ → Text → ℕ → ScheduledTransferStore → Option ScheduledTransfer × ScheduledTransferStore
cancel id caller_id stamp s = elim (get_by_id_for_caller id caller_id s) [
  | none ↦ (none, s)
  | some t ↦ if is_over t.status then (none, s) else update_status id cancelled stamp s
]

unfoldable pub executions_for_caller : ℕ → Text → ScheduledTransferStore → List Log
executions_for_caller id caller_id s = elim (get_by_id_for_caller id caller_id s) [
  | none ↦ []
  | some t ↦ list_executions id s
]

-- What `executeTransfer` asks the relay service for: the request, and the signed nonce of the options.
unfoldable pub relay_request :
    ScheduledTransfer → ScheduledTransferStore → RelayExecuteRequest × Option ℤ
relay_request transfer s =
    let approved_nonce = transfer.relay_payload.nonce in
    let nonce = approved_nonce + length (list_executions transfer.id s) in
    (
      record {
        session_key = transfer.relay_payload.session_key;
        operation = transfer.relay_payload.operation;
        parameters = transfer.relay_payload.parameters;
        signature = transfer.relay_payload.signature;
        nonce = pos nonce;
        transfer_policy = none;
      },
      (if nonce == approved_nonce then none else some (pos approved_nonce)),
    )

abbrev pub message_of : Option RelayError → Option Message
message_of none = none
message_of (some e) = some e.message

unfoldable pub log_of : ScheduledTransfer → RelayExecuteResponse → ℕ → ℕ → Log
log_of transfer response id now = record {
  id = id;
  scheduled_transfer_id = transfer.id;
  executed_at = now;
  outcome = if response.success then succeeded else failed_run;
  transaction_id = response.transaction_id;
  error = message_of response.error;
}

abbrev pub is_once : ScheduleFrequency → Bool
is_once once = true
is_once _ = false

-- `if (!response.success)`
unfoldable pub patch_of_failure : ScheduledTransfer → Random → ℕ → Patch
patch_of_failure transfer random now =
    let consecutive_failures = transfer.consecutive_failures + 1 in
    if is_once transfer.frequency
    then record {
      status = completed;
      next_run_at = transfer.next_run_at;
      last_execution_at = now;
      consecutive_failures = consecutive_failures;
    }
    else if leb max_consecutive_failures consecutive_failures
    then record {
      status = failed;
      next_run_at = transfer.next_run_at;
      last_execution_at = now;
      consecutive_failures = consecutive_failures;
    }
    else record {
      status = active;
      next_run_at = next_retry_after random transfer.consecutive_failures now;
      last_execution_at = now;
      consecutive_failures = consecutive_failures;
    }

unfoldable pub patch_of_success : ScheduledTransfer → ℕ → Patch
patch_of_success transfer now = elim (compute_next_run_at now transfer.frequency transfer.end_at) [
  | some next_run_at ↦ record {
    status = active;
    next_run_at = next_run_at;
    last_execution_at = now;
    consecutive_failures = 0;
  }
  | none ↦ record {
    status = completed;
    next_run_at = transfer.next_run_at;
    last_execution_at = now;
    consecutive_failures = 0;
  }
]

pub data Notice : Type 0 where
  silent on_max_failures_reached : Notice
  on_consecutive_failure : ℕ → Notice

unfoldable pub notice_of : ScheduledTransfer → RelayExecuteResponse → Notice
notice_of transfer response =
    let consecutive_failures = transfer.consecutive_failures + 1 in
    if response.success || is_once transfer.frequency
    then silent
    else if leb max_consecutive_failures consecutive_failures
    then on_max_failures_reached
    else if ltb 1 consecutive_failures
    then on_consecutive_failure consecutive_failures
    else silent

-- `executeTransfer` after the relay service has responded. The transfer is the one that was read
-- before the call.
unfoldable pub conclude :
    ScheduledTransfer
    → RelayExecuteResponse
    → Random
    → ℕ
    → ℕ
    → ℕ
    → ScheduledTransferStore
    → ScheduledTransferStore
unfolding patch_of_failure patch_of_success
conclude transfer response random id now stamp s =
    let patch =
      if response.success
      then patch_of_success transfer now
      else patch_of_failure transfer random now in
    (update_after_execution transfer.id patch stamp
      (append_execution (log_of transfer response id now) s)).1

-- What each execution reads from outside.
pub record Draw : Type 0 where
  pub random : Random
  pub log_id : ℕ
  pub stamp : ℕ

module _ {W : Type 0}
    (execute_relay : W → RelayExecuteRequest → Option ℤ → Option RelayExecuteResponse × W) where
  -- Whether it returned, and what it leaves.
  unfoldable pub execute_transfer :
      ScheduledTransfer → Draw → ℕ → ScheduledTransferStore → W → Bool × ScheduledTransferStore × W
  execute_transfer transfer d now s w =
      let (req, signed_nonce) = relay_request transfer s in
      let (response, w') = execute_relay w req signed_nonce in
      elim response [
        | none ↦ (false, s, w')
        | some r ↦ (true, conclude transfer r d.random d.log_id now d.stamp s, w')
      ]

  -- The body of the loop. The transfer is as it was when the due ones were listed.
  unfoldable pub process_one :
      ScheduledTransfer → Draw → ℕ → ScheduledTransferStore → W → Bool × ScheduledTransferStore × W
  unfolding execute_transfer
  process_one transfer d now s w =
      if not (is_due transfer.next_run_at now)
      then (false, s, w)
      else (let (acquired, s') = try_acquire_processing transfer.id s in
          if not acquired
          then (false, s', w)
          else (let (returned, s'', w') = execute_transfer transfer d now s' w in
              (returned, release_processing transfer.id s'', w')))

  -- The loop: what each execution draws is a function of its place in the list.
  unfoldable pub process_all :
      List ScheduledTransfer
      → (ℕ → Draw)
      → ℕ
      → ScheduledTransferStore
      → W
      → ℕ × ScheduledTransferStore × W
  unfolding process_one
  process_all [] draw now s w = (0, s, w)
  process_all (t ∷ ts) draw now s w =
      let (returned, s', w') = process_one t (draw (length ts)) now s w in
      let (n, s'', w'') = process_all ts draw now s' w' in
      ((if returned then n + 1 else n), s'', w'')

  unfoldable pub process_due_transfers :
      (ℕ → Draw) → ℕ → ScheduledTransferStore → W → ℕ × ScheduledTransferStore × W
  process_due_transfers draw now s w = process_all (list_due now s) draw now s w
