-- ===== src/Payouts/Statement.antt =====
-- The statement as CSV: neutralizeCsvFormula, escapeCsvCell and toStatementCsv of
-- apps/web-dashboard/src/features/statements/statement-export.ts, with the columns of
-- packages/types/src/statement.ts.
use ancore.Encoding.Decimal.{is_digit}
use ancore.Common.{
  ℕ, Bool, true, false, List, [], ◌∷◌, ◌++◌, map, Text, codes, ◌==◌, ◌&&◌, ◌||◌, if◌then◌else◌,
}

pub data StatementStatus : Type 0 where
  completed pending failed unknown : StatementStatus

pub record StatementRow : Type 0 where
  pub id : Text
  pub timestamp : Text
  pub counterparty : Text
  pub amount : Text
  pub asset : Text
  pub status : StatementStatus
  pub memo_or_reference : Text

abbrev pub status_text : StatementStatus → Text
status_text StatementStatus.completed = codes "completed"
status_text StatementStatus.pending = codes "pending"
status_text StatementStatus.failed = codes "failed"
status_text StatementStatus.unknown = codes "unknown"

-- `/^\d+$/` on what follows a point, and `/^\d+(\.\d+)?$/` after its first digit.
unfoldable pub digits_only : Text → Bool
digits_only [] = true
digits_only (c ∷ s) = is_digit c && digits_only s

abbrev pub some_digits : Text → Bool
some_digits [] = false
some_digits (c ∷ s) = digits_only (c ∷ s)

unfoldable pub number_rest : Text → Bool
unfolding digits_only
number_rest [] = true
number_rest (c ∷ s) = if c == b'.' then some_digits s else is_digit c && number_rest s

-- `/^\d+(\.\d+)?$/`
unfoldable pub unsigned_number : Text → Bool
unfolding number_rest
unsigned_number [] = false
unsigned_number (c ∷ s) = is_digit c && number_rest s

-- PLAIN_NUMBER
unfoldable pub plain_number : Text → Bool
unfolding unsigned_number
plain_number [] = false
plain_number (c ∷ s) = if c == b'-' then unsigned_number s else unsigned_number (c ∷ s)

-- CSV_FORMULA_PREFIX
unfoldable pub formula_prefix : Text → Bool
formula_prefix [] = false
formula_prefix (c ∷ s) = c == b'=' || c == b'+' || c == b'-' || c == b'@' || c == 9 || c == 13

unfoldable pub neutralize_csv_formula : Text → Text
unfolding plain_number formula_prefix
neutralize_csv_formula value =
    if plain_number value then value else if formula_prefix value then 39 ∷ value else value

abbrev pub is_special : ℕ → Bool
is_special c = c == b',' || c == b'"' || c == 10 || c == 13

unfoldable pub has_special : Text → Bool
has_special [] = false
has_special (c ∷ s) = is_special c || has_special s

-- `replace(/"/g, '""')`
unfoldable pub doubled : Text → Text
doubled [] = []
doubled (c ∷ s) = if c == b'"' then b'"' ∷ b'"' ∷ doubled s else c ∷ doubled s

unfoldable pub quote_cell : Text → Text
unfolding has_special doubled
quote_cell safe = if has_special safe then b'"' ∷ (doubled safe ++ (b'"' ∷ [])) else safe

unfoldable pub escape_csv_cell : Text → Text
unfolding neutralize_csv_formula quote_cell
escape_csv_cell value = quote_cell (neutralize_csv_formula value)

-- `join`
unfoldable pub join : ℕ → List Text → Text
join sep [] = []
join sep (s ∷ []) = s
join sep (s ∷ t ∷ ts) = s ++ (sep ∷ join sep (t ∷ ts))

abbrev pub columns : List Text
columns =
    codes "Timestamp"
    ∷ codes "Counterparty"
    ∷ codes "Amount"
    ∷ codes "Asset"
    ∷ codes "Status"
    ∷ codes "Memo/Reference"
    ∷ []

abbrev pub row_cells : StatementRow → List Text
row_cells row =
    row.timestamp
    ∷ row.counterparty
    ∷ row.amount
    ∷ row.asset
    ∷ status_text row.status
    ∷ row.memo_or_reference
    ∷ []

unfoldable pub csv_line : List Text → Text
unfolding escape_csv_cell join
csv_line cells = join b',' (map escape_csv_cell cells)

unfoldable pub to_statement_csv : List StatementRow → Text
unfolding csv_line
to_statement_csv rows = join 10 (csv_line columns ∷ map (λ row. csv_line (row_cells row)) rows)
