-- ===== src/Payouts/Csv.antt =====
-- The reader of CSV: parseCsvRecords of apps/web-dashboard/src/services/bulk-payouts.ts.
use ancore.Common.{
  ℕ, Bool, true, false, Option, none, some, List, [], ◌∷◌, ◌++◌, Text, trim, first, filter, ◌==◌,
  not, ◌&&◌, ◌||◌, if◌then◌else◌,
}

-- `records`, `record`, `field` and `inQuotes`; `skip` is an `index += 1` that is still to be made.
pub record Reader : Type 0 where
  pub records : List (List Text)
  pub cells : List Text
  pub field : Text
  pub in_quotes : Bool
  pub skip : Bool

abbrev pub fresh_reader : Reader
fresh_reader = record { records = []; cells = []; field = []; in_quotes = false; skip = false }

-- `nextChar === c`
abbrev pub is_next : Option ℕ → ℕ → Bool
is_next none c = false
is_next (some d) c = d == c

unfoldable pub end_cell : Reader → Reader
end_cell r = record r { cells = r.cells ++ (r.field ∷ []); field = [] }

unfoldable pub end_record : Reader → Reader
end_record r = record r {
  records = r.records ++ ((r.cells ++ (r.field ∷ [])) ∷ []);
  cells = [];
  field = [];
}

unfoldable pub push_char : Reader → ℕ → Reader
push_char r c = record r { field = r.field ++ (c ∷ []) }

-- One round of the loop.
unfoldable pub read_char : Reader → ℕ → Option ℕ → Reader
unfolding end_cell end_record push_char
read_char r c next =
    if r.skip
    then record r { skip = false }
    else if c == b'"'
    then (if r.in_quotes && is_next next b'"'
        then record (push_char r b'"') { skip = true }
        else record r { in_quotes = not r.in_quotes })
    else if c == b',' && not r.in_quotes
    then end_cell r
    else if (c == 10 || c == 13) && not r.in_quotes
    then record (end_record r) { skip = c == 13 && is_next next 10 }
    else push_char r c

unfoldable pub read_text : Reader → Text → Reader
unfolding read_char
read_text r [] = r
read_text r (c ∷ s) = read_text (read_char r c (first s)) s

-- `cell.trim() === ''`
unfoldable pub is_blank : Text → Bool
unfolding trim
is_blank s = elim (trim s) [ [] ↦ true | _ ↦ false ]

unfoldable pub some_filled : List Text → Bool
unfolding is_blank
some_filled [] = false
some_filled (s ∷ ss) = not (is_blank s) || some_filled ss

-- What is left after the last line end.
unfoldable pub last_record : Reader → List (List Text)
last_record r = elim r.field [
  | [] ↦ elim r.cells [ [] ↦ r.records | _ ↦ (end_record r).records ]
  | _ ↦ (end_record r).records
]

unfoldable pub parse_csv_records : Text → List (List Text)
unfolding read_text some_filled last_record
parse_csv_records csv = filter some_filled (last_record (read_text fresh_reader csv))
