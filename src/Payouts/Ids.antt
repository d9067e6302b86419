-- ===== src/Payouts/Ids.antt =====
-- The ids of the parsed rows of a payout.
use ancore.Common.{
  ℕ, suc, ◌≤◌, ◌<◌, Option, none, some, List, [], ◌∷◌, Text, length, filter, ◌≡◌, refl, sym, ap,
  text_beq, text_beq_iff, ◌∙◌, arith, inl, inr, Bool-cases,
}
use ancore.Encoding.Decimal.{to_decimal, before, big_int}
use ancore.Encoding.Decimals.{before-digits, to_decimal-all_digits, big_int-to_decimal}
use ancore.Payouts.Csv.{parse_csv_records, some_filled}
use ancore.Payouts.Rows.{
  BulkPayoutRow, Columns, CsvHeader, create_row, missing_row, headers_of, row_of, rows_from,
  to_parse_result, parse_rows, parse_records, parse_bulk_payout_csv, header_index,
}

-- The line number that an id starts with.
number_of : Text → ℕ
number_of id = big_int (before b'-' id)

number_of-row : (c : Columns) (n : ℕ) (cells : List Text) → number_of (row_of c n cells).id ≡ n
unfolding number_of row_of create_row
number_of-row c n cells =
    ap big_int (before-digits b'-' refl (to_decimal n) _ (to_decimal-all_digits n))
    ∙ big_int-to_decimal n

abbrev pub with_id : Text → List BulkPayoutRow → List BulkPayoutRow
with_id id rows = filter (λ row. text_beq row.id id) rows

-- No row from a line number on has an id with a smaller one.
with_id-later :
    (c : Columns) (n : ℕ) (records : List (List Text)) (id : Text)
    → number_of id < n
    → length (with_id id (rows_from c n records)) ≡ 0
unfolding rows_from
with_id-later c n [] id h = refl
with_id-later c n (cells ∷ records) id h = elim (Bool-cases (some_filled cells)) [
  | inl e ↦ elim (Bool-cases (text_beq (row_of c n cells).id id)) [
    | inl same ↦
        let z : number_of id ≡ n =
          ap number_of (sym ((text_beq_iff (row_of c n cells).id id).0 same))
          ∙ number_of-row c n cells in
        absurd (omega (arith, z))
    | inr other ↦ rw (e, other) (with_id-later c (suc n) records id (omega arith))
  ]
  | inr e ↦ rw e (with_id-later c (suc n) records id (omega arith))
]

with_id-rows_from :
    (c : Columns) (n : ℕ) (records : List (List Text)) (id : Text)
    → length (with_id id (rows_from c n records)) ≤ 1
unfolding rows_from
with_id-rows_from c n [] id = omega arith
with_id-rows_from c n (cells ∷ records) id = elim (Bool-cases (some_filled cells)) [
  | inl e ↦ elim (Bool-cases (text_beq (row_of c n cells).id id)) [
    | inl same ↦
        let z : number_of id ≡ n =
          ap number_of (sym ((text_beq_iff (row_of c n cells).id id).0 same))
          ∙ number_of-row c n cells in
        let none_later = with_id-later c (suc n) records id (omega (arith, z)) in
        rw (e, same) (omega (arith, none_later))
    | inr other ↦ rw (e, other) (with_id-rows_from c (suc n) records id)
  ]
  | inr e ↦ rw e (with_id-rows_from c (suc n) records id)
]

length-with_id-one : (id : Text) (row : BulkPayoutRow) → length (with_id id (row ∷ [])) ≤ 1
length-with_id-one id row = ground arith

parse_rows-with_id :
    (headers : List (Option CsvHeader)) (i j : Option ℕ) (records : List (List Text)) (id : Text)
    → length (with_id id (parse_rows headers i j records)) ≤ 1
unfolding parse_rows
parse_rows-with_id headers none none records id =
    length-with_id-one id (missing_row (CsvHeader.recipient ∷ CsvHeader.amount ∷ []))
parse_rows-with_id headers none (some j) records id =
    length-with_id-one id (missing_row (CsvHeader.recipient ∷ []))
parse_rows-with_id headers (some i) none records id =
    length-with_id-one id (missing_row (CsvHeader.amount ∷ []))
parse_rows-with_id headers (some i) (some j) records id = with_id-rows_from _ 2 records id

-- No two rows of a parsed payout have the same id.
pub parse_bulk_payout_csv-with_id :
    (csv id : Text) → length (with_id id (parse_bulk_payout_csv csv).rows) ≤ 1
unfolding parse_bulk_payout_csv to_parse_result
parse_bulk_payout_csv-with_id csv id = records_lem (parse_csv_records csv)
  where
    records_lem : (records : List (List Text)) → length (with_id id (parse_records records)) ≤ 1
    records_lem [] = unfold parse_records in omega arith
    records_lem (head ∷ records) =
        unfold parse_records in
        parse_rows-with_id (headers_of head) (header_index CsvHeader.recipient (headers_of head))
          (header_index CsvHeader.amount (headers_of head)) records id
