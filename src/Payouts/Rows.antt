-- ===== src/Payouts/Rows.antt =====
-- The rows of a payout: parseBulkPayoutCsv, createRow, validateRow and toParseResult of
-- apps/web-dashboard/src/services/bulk-payouts.ts.
use ancore.Common.{
  ℕ, zero, suc, ◌+◌, Bool, true, false, Option, none, some, List, [], ◌∷◌, ◌++◌, map, Text, codes,
  text_beq, trim, to_lower_case, is_space, ltb, ◌==◌, not, ◌||◌, if◌then◌else◌, filter, get_or,
}
use ancore.Encoding.Decimal.{to_decimal}
use ancore.Payouts.Csv.{parse_csv_records, some_filled}
use ancore.Payouts.Amounts.{decimal_to_stroops, format_stroops, is_amount}
use ancore.Payouts.Key.{is_valid_ed25519_public_key}

pub data CsvHeader : Type 0 where
  recipient amount signed_transaction_xdr : CsvHeader

-- The messages of a row that is not valid.
pub data RowError : Type 0 where
  missing_columns : List CsvHeader → RowError
  recipient_required recipient_invalid : RowError
  amount_required amount_malformed amount_not_positive amount_too_large : RowError

pub data BulkPayoutStatus : Type 0 where
  pending success failed : BulkPayoutStatus

pub record BulkPayoutRow : Type 0 where
  pub id : Text
  pub line_number : ℕ
  pub recipient : Text
  pub amount : Text
  pub signed_transaction_xdr : Option Text
  pub status : BulkPayoutStatus
  pub errors : List RowError

pub record BulkPayoutParseResult : Type 0 where
  pub rows : List BulkPayoutRow
  pub valid_rows : List BulkPayoutRow
  pub invalid_rows : List BulkPayoutRow
  pub total_amount : Text

abbrev pub max_stroops : ℕ
max_stroops = 9223372036854775807

-- `replace(/[\s_-]+/g, '')`
unfoldable pub drop_separators : Text → Text
unfolding is_space
drop_separators [] = []
drop_separators (c ∷ s) =
    if is_space c || c == b'_' || c == b'-' then drop_separators s else c ∷ drop_separators s

unfoldable pub normalize_header : Text → Text
unfolding drop_separators trim to_lower_case
normalize_header value = drop_separators (to_lower_case (trim value))

-- HEADER_ALIASES; `none` is a name that is no header.
unfoldable pub header_of : Text → Option CsvHeader
header_of s =
    if text_beq s (codes "address")
      || text_beq s (codes "destination")
      || text_beq s (codes "recipient")
      || text_beq s (codes "to")
    then some CsvHeader.recipient
    else if text_beq s (codes "amount")
    then some CsvHeader.amount
    else if text_beq s (codes "signedtransactionxdr")
        || text_beq s (codes "signedxdr")
        || text_beq s (codes "xdr")
    then some CsvHeader.signed_transaction_xdr
    else none

abbrev pub header_beq : CsvHeader → CsvHeader → Bool
header_beq CsvHeader.recipient CsvHeader.recipient = true
header_beq CsvHeader.amount CsvHeader.amount = true
header_beq CsvHeader.signed_transaction_xdr CsvHeader.signed_transaction_xdr = true
header_beq _ _ = false

abbrev pub is_header : Option CsvHeader → CsvHeader → Bool
is_header none h = false
is_header (some k) h = header_beq k h

-- `headers.indexOf(h)`; `none` is -1.
unfoldable pub header_index : CsvHeader → List (Option CsvHeader) → Option ℕ
header_index h [] = none
header_index h (k ∷ ks) =
    if is_header k h
    then some 0
    else elim (header_index h ks) [ none ↦ none | some i ↦ some (suc i) ]

-- `record[index]`
unfoldable pub cell_at : List Text → ℕ → Option Text
cell_at [] i = none
cell_at (c ∷ cs) zero = some c
cell_at (c ∷ cs) (suc i) = cell_at cs i

unfoldable pub create_row : ℕ → Text → Text → Option Text → List RowError → BulkPayoutRow
unfolding to_decimal
create_row line_number destination units xdr errors = record {
  id = to_decimal line_number ++ (b'-' ∷ (destination ++ (b'-' ∷ units)));
  line_number = line_number;
  recipient = destination;
  amount = units;
  signed_transaction_xdr = xdr;
  status = BulkPayoutStatus.pending;
  errors = errors;
}

unfoldable pub recipient_errors : Text → List RowError
unfolding is_valid_ed25519_public_key
recipient_errors [] = RowError.recipient_required ∷ []
recipient_errors (c ∷ s) =
    if is_valid_ed25519_public_key (c ∷ s) then [] else RowError.recipient_invalid ∷ []

unfoldable pub amount_errors : Text → List RowError
amount_errors [] = RowError.amount_required ∷ []
amount_errors (c ∷ s) =
    if not (is_amount (c ∷ s))
    then RowError.amount_malformed ∷ []
    else if decimal_to_stroops (c ∷ s) == 0
    then RowError.amount_not_positive ∷ []
    else if ltb max_stroops (decimal_to_stroops (c ∷ s))
    then RowError.amount_too_large ∷ []
    else []

unfoldable pub validate_row : Text → Text → List RowError
unfolding recipient_errors amount_errors
validate_row destination units = recipient_errors destination ++ amount_errors units

abbrev pub trimmed : Option Text → Option Text
trimmed none = none
trimmed (some s) = some (trim s)

-- Where the columns stand.
pub record Columns : Type 0 where
  pub recipient_index : ℕ
  pub amount_index : ℕ
  pub xdr_index : Option ℕ

unfoldable pub row_of : Columns → ℕ → List Text → BulkPayoutRow
unfolding create_row validate_row cell_at
row_of c line_number cells =
    let destination = get_or (trimmed (cell_at cells c.recipient_index)) [] in
    let units = trim (get_or (cell_at cells c.amount_index) []) in
    let xdr : Option Text = elim c.xdr_index [ none ↦ none | some i ↦ trimmed (cell_at cells i) ] in
    create_row line_number destination units xdr (validate_row destination units)

-- The rows from a line number on; a record of blank cells is passed over.
unfoldable pub rows_from : Columns → ℕ → List (List Text) → List BulkPayoutRow
unfolding row_of some_filled
rows_from c line_number [] = []
rows_from c line_number (cells ∷ records) =
    let rest = rows_from c (suc line_number) records in
    if some_filled cells then row_of c line_number cells ∷ rest else rest

abbrev pub is_valid_row : BulkPayoutRow → Bool
is_valid_row row = elim row.errors [ [] ↦ true | _ ↦ false ]

unfoldable pub total_stroops : List BulkPayoutRow → ℕ
total_stroops [] = 0
total_stroops (row ∷ rows) = decimal_to_stroops row.amount + total_stroops rows

unfoldable pub to_parse_result : List BulkPayoutRow → BulkPayoutParseResult
unfolding total_stroops
to_parse_result rows = record {
  rows = rows;
  valid_rows = filter is_valid_row rows;
  invalid_rows = filter (λ row. not (is_valid_row row)) rows;
  total_amount = format_stroops (total_stroops (filter is_valid_row rows));
}

-- The only row where a required column is missing.
unfoldable pub missing_row : List CsvHeader → BulkPayoutRow
unfolding create_row
missing_row headers = create_row 1 [] [] none (RowError.missing_columns headers ∷ [])

-- What follows the headers, by the places of the two required columns.
unfoldable pub parse_rows :
    List (Option CsvHeader) → Option ℕ → Option ℕ → List (List Text) → List BulkPayoutRow
unfolding rows_from missing_row header_index
parse_rows headers none none records =
    missing_row (CsvHeader.recipient ∷ CsvHeader.amount ∷ []) ∷ []
parse_rows headers none (some j) records = missing_row (CsvHeader.recipient ∷ []) ∷ []
parse_rows headers (some i) none records = missing_row (CsvHeader.amount ∷ []) ∷ []
parse_rows headers (some i) (some j) records =
    rows_from
      (record {
        recipient_index = i;
        amount_index = j;
        xdr_index = header_index CsvHeader.signed_transaction_xdr headers;
      })
      2 records

unfoldable pub headers_of : List Text → List (Option CsvHeader)
unfolding normalize_header header_of
headers_of head = map (λ header. header_of (normalize_header header)) head

unfoldable pub parse_records : List (List Text) → List BulkPayoutRow
unfolding parse_rows headers_of header_index
parse_records [] = []
parse_records (head ∷ records) =
    let headers = headers_of head in
    parse_rows headers (header_index CsvHeader.recipient headers)
      (header_index CsvHeader.amount headers) records

unfoldable pub parse_bulk_payout_csv : Text → BulkPayoutParseResult
unfolding parse_csv_records parse_records to_parse_result
parse_bulk_payout_csv csv = to_parse_result (parse_records (parse_csv_records csv))
