-- ===== src/Payouts/Totals.antt =====
-- What the parsed rows of a payout promise: their amounts and their total.
use ancore.Common.{
  ℕ, suc, ◌+◌, ◌≤◌, ◌<◌, true, Option, none, some, List, [], ◌∷◌, ◌++◌, Text, filter, Mem, ◌≡◌,
  refl, sym, subst, ◌∙◌, arith, ◌⊎◌, inl, inr, Bool-cases, mem-filter,
}
use ancore.Payouts.Csv.{parse_csv_records, some_filled}
use ancore.Payouts.Amounts.{decimal_to_stroops, is_amount}
use ancore.Payouts.Stroops.{decimal_to_stroops-format_stroops}
use ancore.Payouts.Key.{is_valid_ed25519_public_key}
use ancore.Payouts.Rows.{
  BulkPayoutRow, Columns, RowError, CsvHeader, create_row, missing_row, headers_of,
  recipient_errors, amount_errors, validate_row, row_of, rows_from, is_valid_row, total_stroops,
  to_parse_result, parse_rows, parse_records, parse_bulk_payout_csv, max_stroops, header_index,
}

-- A row that can be paid.
pub record Payable (row : BulkPayoutRow) : Type 0 where
  pub to_key : is_valid_ed25519_public_key row.recipient ≡ true
  pub decimal : is_amount row.amount ≡ true
  pub positive : 0 < decimal_to_stroops row.amount
  pub bounded : decimal_to_stroops row.amount ≤ max_stroops

-- The errors of a row are those of its validation, or a column is missing.
abbrev Checked : BulkPayoutRow → Type 0
Checked row =
    (row.errors ≡ validate_row row.recipient row.amount)
    ⊎ ((h : List CsvHeader) × (row.errors ≡ RowError.missing_columns h ∷ []))

recipient_errors-none : (s : Text) → recipient_errors s ≡ [] → is_valid_ed25519_public_key s ≡ true
unfolding recipient_errors
recipient_errors-none [] h = ground arith
recipient_errors-none (c ∷ s) h = ground arith

amount_errors-none :
    (s : Text)
    → amount_errors s ≡ []
    → (is_amount s ≡ true) × (0 < decimal_to_stroops s) × (decimal_to_stroops s ≤ max_stroops)
unfolding amount_errors
amount_errors-none [] h = ground arith
amount_errors-none (c ∷ s) h = (ground arith, ground arith, ground arith)

append-eq-nil : (xs ys : List RowError) → xs ++ ys ≡ [] → (xs ≡ []) × (ys ≡ [])
append-eq-nil [] ys h = (refl, h)
append-eq-nil (x ∷ xs) ys h = cc

valid-no_errors : (row : BulkPayoutRow) → is_valid_row row ≡ true → row.errors ≡ []
valid-no_errors row h = ground arith

valid-Payable : (row : BulkPayoutRow) → Checked row → is_valid_row row ≡ true → Payable row
unfolding validate_row
valid-Payable row (inl e) h =
    let (r, a) =
      append-eq-nil (recipient_errors row.recipient) (amount_errors row.amount)
        (sym e ∙ valid-no_errors row h) in
    let (d, p, b) = amount_errors-none row.amount a in
    record {
      to_key = recipient_errors-none row.recipient r;
      decimal = d;
      positive = p;
      bounded = b;
    }
valid-Payable row (inr (m, e)) h =
    let z : RowError.missing_columns m ∷ [] ≡ [] = sym e ∙ valid-no_errors row h in absurd (cc z)

rows_from-Checked :
    (c : Columns) (n : ℕ) (records : List (List Text)) (row : BulkPayoutRow)
    → Mem row (rows_from c n records)
    → Checked row
unfolding rows_from
rows_from-Checked c n [] row m = elim m [ ]
rows_from-Checked c n (cells ∷ records) row m = elim (Bool-cases (some_filled cells)) [
  | inl e ↦ first_row (rows_from-Checked c (suc n) records row) (let z = rw e at m in z)
  | inr e ↦ rows_from-Checked c (suc n) records row (let z = rw e at m in z)
]
  where
    first_row :
        (Mem row (rows_from c (suc n) records) → Checked row)
        → Mem row (row_of c n cells ∷ rows_from c (suc n) records)
        → Checked row
    first_row later (inl here) = subst Checked here (inl (unfold row_of create_row in refl))
    first_row later (inr m) = later m

missing-Checked : (h : List CsvHeader) → Checked (missing_row h)
unfolding missing_row
missing-Checked h = inr (h, refl)

only-Checked : (row other : BulkPayoutRow) → Checked other → Mem row (other ∷ []) → Checked row
only-Checked row other h (inl e) = subst Checked e h
only-Checked row other h (inr m) = elim m [ ]

parse_rows-Checked :
    (headers : List (Option CsvHeader)) (i j : Option ℕ) (records : List (List Text))
    (row : BulkPayoutRow)
    → Mem row (parse_rows headers i j records)
    → Checked row
unfolding parse_rows
parse_rows-Checked headers none none records row m =
    only-Checked row (missing_row (CsvHeader.recipient ∷ CsvHeader.amount ∷ []))
      (missing-Checked (CsvHeader.recipient ∷ CsvHeader.amount ∷ [])) m
parse_rows-Checked headers none (some j) records row m =
    only-Checked row (missing_row (CsvHeader.recipient ∷ []))
      (missing-Checked (CsvHeader.recipient ∷ [])) m
parse_rows-Checked headers (some i) none records row m =
    only-Checked row (missing_row (CsvHeader.amount ∷ [])) (missing-Checked (CsvHeader.amount ∷ []))
      m
parse_rows-Checked headers (some i) (some j) records row m = rows_from-Checked _ 2 records row m

parse_records-Checked :
    (records : List (List Text)) (row : BulkPayoutRow)
    → Mem row (parse_records records)
    → Checked row
unfolding parse_records
parse_records-Checked [] row m = elim m [ ]
parse_records-Checked (head ∷ records) row m =
    parse_rows-Checked (headers_of head) (header_index CsvHeader.recipient (headers_of head))
      (header_index CsvHeader.amount (headers_of head)) records row m

stroops-le-total :
    (rows : List BulkPayoutRow) (row : BulkPayoutRow)
    → Mem row rows
    → decimal_to_stroops row.amount ≤ total_stroops rows
unfolding total_stroops
stroops-le-total [] row m = elim m [ ]
stroops-le-total (r ∷ rows) row (inl e) =
    subst (λ x. decimal_to_stroops x.amount ≤ decimal_to_stroops r.amount + total_stroops rows) e
      (omega arith)
stroops-le-total (r ∷ rows) row (inr m) = omega (arith, stroops-le-total rows row m)

-- Each valid row of a parsed payout goes to a valid key and pays an amount in the bounds of the
-- network, and the total that is shown is the sum of the amounts of the valid rows.
pub parse_bulk_payout_csv-Payable :
    (csv : Text) (row : BulkPayoutRow)
    → Mem row (parse_bulk_payout_csv csv).valid_rows
    → Payable row
      × (decimal_to_stroops (parse_bulk_payout_csv csv).total_amount
          ≡ total_stroops (parse_bulk_payout_csv csv).valid_rows)
      × (decimal_to_stroops row.amount
          ≤ decimal_to_stroops (parse_bulk_payout_csv csv).total_amount)
unfolding parse_bulk_payout_csv to_parse_result
parse_bulk_payout_csv-Payable csv row m =
    let rows = parse_records (parse_csv_records csv) in
    let (stands, valid) = mem-filter is_valid_row rows row m in
    let printed = decimal_to_stroops-format_stroops (total_stroops (filter is_valid_row rows)) in
    let least = stroops-le-total (filter is_valid_row rows) row m in
    (
      valid-Payable row (parse_records-Checked (parse_csv_records csv) row stands) valid,
      printed,
      omega (arith, least, printed),
    )
