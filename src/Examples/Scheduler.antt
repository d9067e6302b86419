-- ===== src/Examples/Scheduler.antt =====
-- A daily transfer that runs, fails and is cancelled; and the month after a day.
use ancore.Common.{
  ℕ, ◌+◌, true, false, none, some, get_or, pos, codes, ◌≡◌, refl, arith, nat_eq, text_eq,
}
use ancore.Common.Table
use ancore.Relay.Types.{relay_execute, text, RelayExecuteResponse, caught, internal_error}
use ancore.Queue.Backoff.{Random}
use ancore.Scheduler.Date.{ms_per_day, fields, time_within_day}
use ancore.Scheduler.ScheduleUtils.{once, daily, add_one_utc_month_clamped, compute_next_run_at}
use ancore.Scheduler.Recurrence.{compute_next_run_at_daily}
use ancore.Scheduler.Months.{next_month, add_one_utc_month_clamped_lem}
use ancore.Scheduler.Transfers.{
  active, cancelled, failed, ScheduledTransfer, CreateScheduledTransferInput,
}
use ancore.Scheduler.TransferStore.{
  ScheduledTransferStore, empty, patched, runs, try_acquire_processing, release_processing,
  is_processing, new_transfer, account_key, add, has, list_executions, append_execution,
  update_after_execution,
}
use ancore.Scheduler.TransferStore
use ancore.Scheduler.Service.{create, cancel, relay_request, patch_of_success, conclude}
use ancore.Scheduler.Failing.{Execution, execute_times, execute_times-failed}
use ancore.Scheduler.Outcome.{relay_request-conclude, cancel_overwritten}

abbrev now : ℕ
now = 1738281600000

abbrev input : CreateScheduledTransferInput
input = record {
  account_address = codes "GACCOUNT";
  to = codes "GTO";
  amount = codes "50";
  asset = codes "XLM";
  frequency = daily;
  start_at = now;
  end_at = none;
  note = none;
  relay_payload = record {
    session_key = codes "key";
    operation = relay_execute;
    parameters = record {
      to = some (text (codes "GTO"));
      amount = some (text (codes "50"));
      asset = none;
      account_address = some (text (codes "GACCOUNT"));
      signed_transaction_xdr = none;
    };
    signature = codes "signature";
    nonce = 7;
  };
}

abbrev store : ScheduledTransferStore
store = (create input (codes "alice") 1 now empty).1

abbrev transfer : ScheduledTransfer
transfer = record {
  id = 1;
  account_id = codes "GACCOUNT";
  caller_id = codes "alice";
  to = codes "GTO";
  amount = codes "50";
  asset = codes "XLM";
  frequency = daily;
  status = active;
  start_at = now;
  next_run_at = now;
  end_at = none;
  note = none;
  user_approved_at = now;
  relay_payload = input.relay_payload;
  consecutive_failures = 0;
  created_at = now;
  updated_at = now;
  last_execution_at = none;
}

stored : Table.get 1 store.transfers ≡ some transfer
unfolding create TransferStore.create new_transfer Table.get Table.set
stored = refl

half : Random
half = record { num = 1; den = 2; below = omega arith }

abbrev relayed : RelayExecuteResponse
relayed = record {
  success = true;
  transaction_id = some (codes "HASH");
  error = none;
  gas_used = 100;
}

abbrev refused : RelayExecuteResponse
refused = record {
  success = false;
  transaction_id = none;
  error = some (record { code = internal_error; message = caught (codes "timeout") });
  gas_used = 0;
}

abbrev failing : ℕ → Execution
failing k = record { response = refused; random = half; log_id = k; now = now + k; stamp = now + k }

execute_times-failed_example :
    (u : ScheduledTransfer) × (Table.get 1 (execute_times 1 failing 6 store).transfers ≡ some u)
    × (◌≡◌ {A = ℕ} u.consecutive_failures 5)
    × (u.status ≡ failed)
execute_times-failed_example =
    execute_times-failed 1 failing (λ k. refl) 6 store transfer stored refl refl refl refl

first_nonce : (relay_request transfer store).0.nonce ≡ pos 7
unfolding relay_request list_executions create TransferStore.create Table.get Table.set
first_nonce = refl

relay_request-conclude_example :
    ((relay_request transfer (conclude transfer relayed half 9 now now store)).0.nonce ≡ pos 8)
    × (get_or (relay_request transfer store).1 (pos 7) ≡ pos 7)
relay_request-conclude_example =
    relay_request-conclude transfer relayed half 9 now now 7 store first_nonce

tomorrow : compute_next_run_at now daily none ≡ some (now + ms_per_day)
unfolding compute_next_run_at
tomorrow = compute_next_run_at_daily now

cancel_overwritten_example :
    let (told, s') = cancel 1 (codes "alice") 5 store in
    let told' : ScheduledTransfer = record transfer { status = cancelled; updated_at = 5 } in
    let after' : ScheduledTransfer = patched (patch_of_success transfer now) 9 told' in
    (told ≡ some told')
    × (after'.status ≡ active)
    × (Table.get 1 (conclude transfer relayed half 9 now 9 s').transfers ≡ some after')
cancel_overwritten_example =
    cancel_overwritten transfer relayed half 9 now 5 9 (now + ms_per_day) store stored refl refl
      tomorrow

none_once : compute_next_run_at now once none ≡ none
unfolding compute_next_run_at
none_once = refl

add_one_utc_month_clamped_lem_example :
    (fields (add_one_utc_month_clamped now) ≡ next_month (fields now))
    × (time_within_day (add_one_utc_month_clamped now) ≡ time_within_day now)
add_one_utc_month_clamped_lem_example = add_one_utc_month_clamped_lem now
