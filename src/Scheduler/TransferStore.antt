-- ===== src/Scheduler/TransferStore.antt =====
-- services/relayer/src/scheduler/ScheduledTransferStore.ts. The clock and `randomUUID` are arguments.
-- A `Set` is the list of its members in the order in which they were added.
use ancore.Common.{
  ℕ, Bool, true, false, ◌||◌, not, Option, none, some, get_or, List, [], ◌∷◌, ◌++◌, Text,
  if◌then◌else◌, leb, ◌==◌, length, filter, text_beq, nat_eq, text_eq,
}
use ancore.Common.Table
use ancore.Common.Table.{Table}
use ancore.Relay.Types.{Message}
use ancore.Scheduler.Transfers.{
  ScheduledTransferStatus, active, CreateScheduledTransferInput, ScheduledTransfer,
  ScheduledTransferExecutionLog, is_active,
}

abbrev pub Log : Type 0
Log = ScheduledTransferExecutionLog Message

pub record ScheduledTransferStore : Type 0 where
  pub transfers : Table ℕ ScheduledTransfer
  pub executions : Table ℕ (List Log)
  pub account_index : Table Text (List ℕ)
  pub processing : List ℕ

abbrev pub empty : ScheduledTransferStore
empty = record { transfers = []; executions = []; account_index = []; processing = [] }

-- `Set.has`, `Set.add` and `Set.delete`
unfoldable pub has : ℕ → List ℕ → Bool
has id [] = false
has id (i ∷ ids) = (i == id) || has id ids

unfoldable pub add : ℕ → List ℕ → List ℕ
add id ids = if has id ids then ids else ids ++ (id ∷ [])

unfoldable pub remove : ℕ → List ℕ → List ℕ
remove id [] = []
remove id (i ∷ ids) = if i == id then remove id ids else i ∷ remove id ids

unfoldable pub account_key : Text → Text → Text
account_key account_address caller_id = caller_id ++ (b':' ∷ account_address)

unfoldable pub new_transfer : CreateScheduledTransferInput → Text → ℕ → ℕ → ScheduledTransfer
new_transfer input caller_id id now = record {
  id = id;
  account_id = input.account_address;
  caller_id = caller_id;
  to = input.to;
  amount = input.amount;
  asset = input.asset;
  frequency = input.frequency;
  status = active;
  start_at = input.start_at;
  next_run_at = input.start_at;
  end_at = input.end_at;
  note = input.note;
  user_approved_at = now;
  relay_payload = input.relay_payload;
  consecutive_failures = 0;
  created_at = now;
  updated_at = now;
  last_execution_at = none;
}

unfoldable pub create :
    CreateScheduledTransferInput
    → Text
    → ℕ
    → ℕ
    → ScheduledTransferStore
    → ScheduledTransfer × ScheduledTransferStore
create input caller_id id now s =
    let transfer = new_transfer input caller_id id now in
    let key = account_key input.account_address caller_id in
    (
      transfer,
      record s {
        transfers = Table.set id transfer s.transfers;
        executions = Table.set id [] s.executions;
        account_index =
            Table.set key (add id (get_or (Table.get key s.account_index) [])) s.account_index;
      },
    )

-- The map over the ids, and the filter of what is not there.
unfoldable pub transfers_of : Table ℕ ScheduledTransfer → List ℕ → List ScheduledTransfer
transfers_of transfers [] = []
transfers_of transfers (id ∷ ids) = elim (Table.get id transfers) [
  | none ↦ transfers_of transfers ids
  | some t ↦ t ∷ transfers_of transfers ids
]

-- The sort by `createdAt`, the latest first, which keeps the order of equals.
unfoldable pub insert_latest : ScheduledTransfer → List ScheduledTransfer → List ScheduledTransfer
insert_latest t [] = t ∷ []
insert_latest t (u ∷ us) =
    if leb u.created_at t.created_at then t ∷ u ∷ us else u ∷ insert_latest t us

unfoldable pub sort_latest : List ScheduledTransfer → List ScheduledTransfer
sort_latest [] = []
sort_latest (t ∷ ts) = insert_latest t (sort_latest ts)

unfoldable pub list_by_account : Text → Text → ScheduledTransferStore → List ScheduledTransfer
list_by_account account_address caller_id s =
    elim (Table.get (account_key account_address caller_id) s.account_index) [
      | none ↦ []
      | some ids ↦ sort_latest (transfers_of s.transfers ids)
    ]

unfoldable pub get_by_id : ℕ → ScheduledTransferStore → Option ScheduledTransfer
get_by_id id s = Table.get id s.transfers

unfoldable pub get_by_id_for_caller : ℕ → Text → ScheduledTransferStore → Option ScheduledTransfer
get_by_id_for_caller id caller_id s = elim (Table.get id s.transfers) [
  | none ↦ none
  | some t ↦ if text_beq t.caller_id caller_id then some t else none
]

-- Whether a transfer is there and active.
abbrev pub runs : Option ScheduledTransfer → Bool
runs none = false
runs (some t) = is_active t.status

unfoldable pub try_acquire_processing : ℕ → ScheduledTransferStore → Bool × ScheduledTransferStore
try_acquire_processing id s =
    if has id s.processing
    then (false, s)
    else if not (runs (Table.get id s.transfers))
    then (false, s)
    else (true, record s { processing = add id s.processing })

unfoldable pub release_processing : ℕ → ScheduledTransferStore → ScheduledTransferStore
release_processing id s = record s { processing = remove id s.processing }

unfoldable pub is_processing : ℕ → ScheduledTransferStore → Bool
is_processing id s = has id s.processing

unfoldable pub update_status :
    ℕ
    → ScheduledTransferStatus
    → ℕ
    → ScheduledTransferStore
    → Option ScheduledTransfer × ScheduledTransferStore
update_status id status stamp s = elim (Table.get id s.transfers) [
  | none ↦ (none, s)
  | some t ↦
      let updated = record t { status = status; updated_at = stamp } in
      (some updated, record s { transfers = Table.set id updated s.transfers })
]

-- The `patch` of `updateAfterExecution`.
pub record Patch : Type 0 where
  pub status : ScheduledTransferStatus
  pub next_run_at : ℕ
  pub last_execution_at : ℕ
  pub consecutive_failures : ℕ

abbrev pub patched : Patch → ℕ → ScheduledTransfer → ScheduledTransfer
patched p stamp t = record t {
  status = p.status;
  next_run_at = p.next_run_at;
  last_execution_at = some p.last_execution_at;
  consecutive_failures = p.consecutive_failures;
  updated_at = stamp;
}

unfoldable pub update_after_execution :
    ℕ → Patch → ℕ → ScheduledTransferStore → Option ScheduledTransfer × ScheduledTransferStore
update_after_execution id p stamp s = elim (Table.get id s.transfers) [
  | none ↦ (none, s)
  | some t ↦ (
    some (patched p stamp t),
    record s { transfers = Table.set id (patched p stamp t) s.transfers },
  )
]

abbrev pub is_due_transfer : ℕ → List ℕ → ScheduledTransfer → Bool
is_due_transfer now processing t =
    if not (is_active t.status) || has t.id processing then false else leb t.next_run_at now

unfoldable pub list_due : ℕ → ScheduledTransferStore → List ScheduledTransfer
list_due now s = filter (is_due_transfer now s.processing) (Table.values s.transfers)

unfoldable pub append_execution : Log → ScheduledTransferStore → ScheduledTransferStore
append_execution log s = record s {
  executions =
      Table.set log.scheduled_transfer_id
        (log ∷ get_or (Table.get log.scheduled_transfer_id s.executions) []) s.executions;
}

unfoldable pub list_executions : ℕ → ScheduledTransferStore → List Log
list_executions id s = get_or (Table.get id s.executions) []

unfoldable pub size : ScheduledTransferStore → ℕ
size s = length s.transfers
