-- ===== src/Payouts/Batch.antt =====
-- A batch of payouts: executeBulkPayoutBatch, readCheckpoint, writeCheckpoint,
-- clearBulkPayoutCheckpoint and loadBulkPayoutCheckpoint of
-- apps/web-dashboard/src/services/bulk-payouts.ts. What stands in storage is kept as what it parses to.
use ancore.Common.{
  ℕ, zero, suc, ◌+◌, ◌-◌, Bool, true, false, Option, none, some, List, [], ◌∷◌, ◌++◌, Text, codes,
  text_beq, length, min, ltb, ◌==◌, ◌&&◌, if◌then◌else◌, filter, text_eq, nat_eq,
}
use ancore.Common.Table
use ancore.Common.Table.{Table}
use ancore.Payouts.Rows.{BulkPayoutRow}

-- The status of what is settled, with the message of a failure.
pub data CheckpointEntry : Type 0 where
  success : CheckpointEntry
  failed : Text → CheckpointEntry

pub record BulkPayoutCheckpoint : Type 0 where
  pub version : ℕ
  pub batch_id : Text
  pub updated_at : ℕ
  pub entries : Table Text CheckpointEntry

-- What the key of the checkpoint holds.
pub data StoredCheckpoint : Type 0 where
  nothing unreadable : StoredCheckpoint
  checkpoint : BulkPayoutCheckpoint → StoredCheckpoint

abbrev pub checkpoint_version : ℕ
checkpoint_version = 1

abbrev pub is_given : Option Text → Bool
is_given none = false
is_given (some []) = false
is_given (some (c ∷ s)) = true

-- No storage is `none`.
unfoldable pub read_stored : StoredCheckpoint → Text → Table Text CheckpointEntry
read_stored StoredCheckpoint.nothing batch_id = []
read_stored StoredCheckpoint.unreadable batch_id = []
read_stored (StoredCheckpoint.checkpoint c) batch_id =
    if c.version == checkpoint_version && text_beq c.batch_id batch_id then c.entries else []

unfoldable pub read_checkpoint : Option StoredCheckpoint → Option Text → Table Text CheckpointEntry
unfolding read_stored
read_checkpoint none batch_id = []
read_checkpoint (some stored) none = []
read_checkpoint (some stored) (some batch_id) =
    if is_given (some batch_id) then read_stored stored batch_id else []

-- `writable` is false where `setItem` throws.
unfoldable pub write_checkpoint :
    Bool
    → ℕ
    → Option StoredCheckpoint
    → Option Text
    → Table Text CheckpointEntry
    → Option StoredCheckpoint
write_checkpoint writable now none batch_id entries = none
write_checkpoint writable now (some stored) none entries = some stored
write_checkpoint writable now (some stored) (some batch_id) entries =
    if is_given (some batch_id) && writable
    then some (
        StoredCheckpoint.checkpoint (record {
          version = checkpoint_version;
          batch_id = batch_id;
          updated_at = now;
          entries = entries;
        }))
    else some stored

pub record BulkPayoutExecution : Type 0 where
  pub row : BulkPayoutRow
  pub outcome : CheckpointEntry

pub record BulkPayoutExecutionSummary : Type 0 where
  pub total : ℕ
  pub successful : ℕ
  pub failed : ℕ
  pub results : List BulkPayoutExecution

-- A running batch. `pending` has the rows behind the cursor, `in_flight` those whose submission is
-- awaited, each by a worker of its own, and `submitted` the calls of submitPayout so far.
pub record Batch : Type 0 where
  pub rows : List BulkPayoutRow
  pub settled : Table ℕ BulkPayoutExecution
  pub entries : Table Text CheckpointEntry
  pub pending : List ℕ
  pub in_flight : List ℕ
  pub submitted : List ℕ
  pub completed : ℕ
  pub storage : Option StoredCheckpoint

-- `rows[index]`
unfoldable pub row_at : List BulkPayoutRow → ℕ → Option BulkPayoutRow
row_at [] i = none
row_at (r ∷ rows) zero = some r
row_at (r ∷ rows) (suc i) = row_at rows i

-- The first pass: what was settled before is adopted, and the rest is pending.
unfoldable pub adopt :
    Table Text CheckpointEntry → ℕ → List BulkPayoutRow → Table ℕ BulkPayoutExecution
adopt entries index [] = []
adopt entries index (row ∷ rows) = elim (Table.get row.id entries) [
  | none ↦ adopt entries (suc index) rows
  | some e ↦ Table.set index (record { row = row; outcome = e }) (adopt entries (suc index) rows)
]

unfoldable pub pending_from : Table Text CheckpointEntry → ℕ → List BulkPayoutRow → List ℕ
pending_from entries index [] = []
pending_from entries index (row ∷ rows) = elim (Table.get row.id entries) [
  | none ↦ index ∷ pending_from entries (suc index) rows
  | some e ↦ pending_from entries (suc index) rows
]

-- The calls of `report` for the rows that were settled before.
unfoldable pub count_adopted : Table Text CheckpointEntry → List BulkPayoutRow → ℕ
count_adopted entries [] = 0
count_adopted entries (row ∷ rows) = elim (Table.get row.id entries) [
  | none ↦ count_adopted entries rows
  | some e ↦ suc (count_adopted entries rows)
]

abbrev pub bulk_payout_concurrency : ℕ
bulk_payout_concurrency = 4

-- `Math.max(1, Math.min(concurrency, rows.length || 1))`
unfoldable pub worker_count : ℕ → List BulkPayoutRow → ℕ
worker_count concurrency rows =
    let most = min concurrency (if length rows == 0 then 1 else length rows) in
    if ltb most 1 then 1 else most

-- A worker takes the next row and submits it, or ends.
unfoldable pub take_next : Batch → Batch
take_next b = elim b.pending [
  | [] ↦ b
  | index ∷ rest ↦ record b {
    pending = rest;
    in_flight = index ∷ b.in_flight;
    submitted = index ∷ b.submitted;
  }
]

unfoldable pub start_workers : ℕ → Batch → Batch
unfolding take_next
start_workers zero b = b
start_workers (suc n) b = start_workers n (take_next b)

-- The batch before its workers start.
unfoldable pub open_batch : List BulkPayoutRow → Option Text → Option StoredCheckpoint → Batch
unfolding read_checkpoint adopt pending_from count_adopted
open_batch rows batch_id storage =
    let entries = read_checkpoint storage batch_id in
    record {
      rows = rows;
      settled = adopt entries 0 rows;
      entries = entries;
      pending = pending_from entries 0 rows;
      in_flight = [];
      submitted = [];
      completed = count_adopted entries rows;
      storage = storage;
    }

unfoldable pub start_batch : ℕ → List BulkPayoutRow → Option Text → Option StoredCheckpoint → Batch
unfolding open_batch worker_count start_workers
start_batch concurrency rows batch_id storage =
    start_workers (worker_count concurrency rows) (open_batch rows batch_id storage)

unfoldable pub remove_index : ℕ → List ℕ → List ℕ
remove_index i [] = []
remove_index i (j ∷ js) = if j == i then js else j ∷ remove_index i js

-- The end of a submission: the row is settled and the checkpoint is written.
unfoldable pub record_outcome :
    Bool → ℕ → Option Text → ℕ → CheckpointEntry → BulkPayoutRow → Batch → Batch
unfolding write_checkpoint remove_index
record_outcome writable now batch_id index outcome row b =
    let entries = Table.set row.id outcome b.entries in
    record b {
      settled = Table.set index (record { row = row; outcome = outcome }) b.settled;
      entries = entries;
      in_flight = remove_index index b.in_flight;
      completed = b.completed + 1;
      storage = write_checkpoint writable now b.storage batch_id entries;
    }

-- The worker goes on with the next row.
unfoldable pub settle_row :
    Bool → ℕ → Option Text → ℕ → CheckpointEntry → BulkPayoutRow → Batch → Batch
unfolding take_next record_outcome
settle_row writable now batch_id index outcome row b =
    take_next (record_outcome writable now batch_id index outcome row b)

abbrev pub is_success : BulkPayoutExecution → Bool
is_success r = elim r.outcome [ CheckpointEntry.success ↦ true | CheckpointEntry.failed m ↦ false ]

-- The settled entries in the order of the rows.
unfoldable pub results_from :
    Table ℕ BulkPayoutExecution → ℕ → List BulkPayoutRow → List BulkPayoutExecution
results_from settled index [] = []
results_from settled index (row ∷ rows) = elim (Table.get index settled) [
  | none ↦ results_from settled (suc index) rows
  | some r ↦ r ∷ results_from settled (suc index) rows
]

unfoldable pub summarise : ℕ → List BulkPayoutExecution → BulkPayoutExecutionSummary
summarise total results = record {
  total = total;
  successful = length (filter is_success results);
  failed = length results - length (filter is_success results);
  results = results;
}

unfoldable pub summary : Batch → BulkPayoutExecutionSummary
unfolding results_from summarise
summary b = summarise (length b.rows) (results_from b.settled 0 b.rows)

unfoldable pub settled_rows :
    Table Text CheckpointEntry → List BulkPayoutRow → List BulkPayoutExecution
settled_rows entries [] = []
settled_rows entries (row ∷ rows) = elim (Table.get row.id entries) [
  | none ↦ settled_rows entries rows
  | some e ↦ record { row = row; outcome = e } ∷ settled_rows entries rows
]

unfoldable pub load_bulk_payout_checkpoint :
    Text → List BulkPayoutRow → Option StoredCheckpoint → Option BulkPayoutExecutionSummary
unfolding read_checkpoint settled_rows summarise
load_bulk_payout_checkpoint batch_id rows storage =
    elim (settled_rows (read_checkpoint storage (some batch_id)) rows) [
      | [] ↦ none
      | r ∷ rs ↦ some (summarise (length rows) (r ∷ rs))
    ]

unfoldable pub clear_bulk_payout_checkpoint :
    Bool → Option StoredCheckpoint → Option StoredCheckpoint
clear_bulk_payout_checkpoint writable none = none
clear_bulk_payout_checkpoint writable (some stored) =
    if writable then some StoredCheckpoint.nothing else some stored

-- `bulk-payout-${row.id}`
abbrev pub idempotency_key_of : BulkPayoutRow → Text
idempotency_key_of row = codes "bulk-payout-" ++ row.id
