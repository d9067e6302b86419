-- ===== src/Examples/Payouts.antt =====
-- A payout of two rows, and a statement with a memo that a spreadsheet would evaluate.
use ancore.Common.{
  ℕ, ◌+◌, ◌-◌, ◌≤◌, ◌==◌, if◌then◌else◌, true, none, some, Option, Text, List, codes, [], ◌∷◌, ◌++◌,
  map, length, Mem, inl, ◌≡◌, ◌≢◌, refl, arith,
}
use ancore.Common.Table
use ancore.Payouts.Csv.{parse_csv_records}
use ancore.Payouts.Statement.{
  StatementStatus, StatementRow, columns, row_cells, neutralize_csv_formula, to_statement_csv,
}
use ancore.Payouts.Reading.{parse_csv_records-to_statement_csv}
use ancore.Payouts.Amounts.{decimal_to_stroops, is_amount}
use ancore.Payouts.Key.{is_valid_ed25519_public_key}
use ancore.Payouts.Rows.{BulkPayoutRow, BulkPayoutStatus, total_stroops, parse_bulk_payout_csv}
use ancore.Payouts.Totals.{Payable, parse_bulk_payout_csv-Payable}
use ancore.Payouts.Ids.{with_id, parse_bulk_payout_csv-with_id}
use ancore.Payouts.Batch.{
  CheckpointEntry, StoredCheckpoint, Batch, adopt, start_batch, settle_row, summary, row_at,
}
use ancore.Payouts.Pool.{count, is_settled, Reached, recorded}
use ancore.Payouts.Workers.{Reached-submitted}
use ancore.Payouts.Ending.{Turn, play, batch_ends}
use ancore.Payouts.Resume.{resumed-count}

abbrev statement_rows : List StatementRow
statement_rows =
    record {
      id = codes "1";
      timestamp = codes "2026-01-02";
      counterparty = codes "a \"friend\", really";
      amount = codes "-5";
      asset = codes "XLM";
      status = StatementStatus.completed;
      memo_or_reference = codes "=1+1";
    }
    ∷ []

parse_csv_records-to_statement_csv_example :
    parse_csv_records (to_statement_csv statement_rows)
    ≡ columns ∷ map (λ row. map neutralize_csv_formula (row_cells row)) statement_rows
parse_csv_records-to_statement_csv_example = parse_csv_records-to_statement_csv statement_rows

abbrev key : Text
key = codes "GAAAAAAAAAAAAAAAAAAAAAAAAAAAAAAAAAAAAAAAAAAAAAAAAAAAAWHF"

abbrev csv : Text
csv = codes "To, Amount\n" ++ (key ++ codes ",1.5\nbad,2\n")

abbrev paid : BulkPayoutRow
paid = record {
  id = codes "2-" ++ (key ++ codes "-1.5");
  line_number = 2;
  recipient = key;
  amount = codes "1.5";
  signed_transaction_xdr = none;
  status = BulkPayoutStatus.pending;
  errors = [];
}

paid-valid : Mem paid (parse_bulk_payout_csv csv).valid_rows
unfolding parse_bulk_payout_csv parse_csv_records is_valid_ed25519_public_key is_amount
    decimal_to_stroops
paid-valid = inl refl

parse_bulk_payout_csv-Payable_example :
    Payable paid
    × (decimal_to_stroops (parse_bulk_payout_csv csv).total_amount
        ≡ total_stroops (parse_bulk_payout_csv csv).valid_rows)
    × (decimal_to_stroops paid.amount ≤ decimal_to_stroops (parse_bulk_payout_csv csv).total_amount)
parse_bulk_payout_csv-Payable_example = parse_bulk_payout_csv-Payable csv paid paid-valid

parse_bulk_payout_csv-with_id_example :
    length (with_id paid.id (parse_bulk_payout_csv csv).rows) ≤ 1
parse_bulk_payout_csv-with_id_example = parse_bulk_payout_csv-with_id csv paid.id

abbrev other : BulkPayoutRow
other = record paid { id = codes "3"; line_number = 3 }

abbrev rows : List BulkPayoutRow
rows = paid ∷ other ∷ []

abbrev batch_id : Option Text
batch_id = some (codes "batch")

abbrev storage : Option StoredCheckpoint
storage = some StoredCheckpoint.nothing

abbrev begun : Batch
begun = start_batch 1 rows batch_id storage

abbrev after_one : Batch
after_one = settle_row true 1000 batch_id 0 CheckpointEntry.success paid begun

Reached-one : Reached 1 true batch_id rows storage after_one
unfolding start_batch row_at Table.get
Reached-one =
    Reached.settles 1000 0 CheckpointEntry.success paid begun Reached.started (inl refl) refl

Reached-submitted_example :
    (length after_one.in_flight ≤ 1)
    × (count 0 after_one.submitted + is_settled 0 (adopt (recorded batch_id storage) 0 rows) ≤ 1)
Reached-submitted_example =
    Reached-submitted 1 true batch_id rows storage after_one 0 Reached-one (omega arith)

-- The second row fails, and the first is paid.
abbrev turns : ℕ → Turn
turns n = record {
  pick = 0;
  now = 3000 - n;
  outcome = if n == 1 then CheckpointEntry.failed (codes "no") else CheckpointEntry.success;
}

batch_ends_example :
    let b = play true batch_id turns 2 (start_batch 4 rows batch_id storage) in
    (b.in_flight ≡ [])
    × (count 0 b.submitted + is_settled 0 (adopt (recorded batch_id storage) 0 rows) ≡ 1)
    × (length (summary b).results ≡ length rows)
    × (b.completed ≡ length rows)
batch_ends_example = batch_ends 4 true batch_id rows storage turns 0 (omega arith)

abbrev resumed : Batch
resumed = start_batch 1 rows batch_id after_one.storage

settled_first : is_settled 0 after_one.settled ≡ 1
unfolding start_batch settle_row Table.get Table.set
settled_first = refl

first_row : row_at rows 0 ≡ some paid
unfolding row_at
first_row = refl

stored : storage ≢ none
stored = ground arith

resumed-count_example : count 0 resumed.submitted ≡ 0
resumed-count_example =
    resumed-count 1 (codes "batch") rows storage 0 paid after_one resumed refl stored first_row
      Reached-one settled_first Reached.started
