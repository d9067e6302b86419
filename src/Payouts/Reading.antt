-- ===== src/Payouts/Reading.antt =====
-- The CSV of a statement, read by the reader of the bulk payouts.
use mathlib.Core.List.{append-nil, append_assoc}
use ancore.Common.{
  true, false, List, [], ◌∷◌, ◌++◌, map, Text, codes, first, filter, ◌≡◌, refl, sym, ap, ◌∙◌, arith,
  inl, inr, Bool-cases,
}
use ancore.Payouts.Csv.{
  is_next, read_char, end_cell, end_record, read_text, is_blank, some_filled, last_record,
  parse_csv_records, fresh_reader,
}
use ancore.Payouts.Statement.{
  StatementStatus, StatementRow, status_text, neutralize_csv_formula, quote_cell, escape_csv_cell,
  join, columns, row_cells, csv_line, to_statement_csv, plain_number, formula_prefix,
}
use ancore.Payouts.Cells.{plain, read-quote_cell}

-- The cells of a line but for the last one, and the last one.
front : Text → List Text → List Text
front v [] = []
front v (w ∷ ws) = v ∷ front w ws

back : Text → List Text → Text
back v [] = v
back v (w ∷ ws) = back w ws

front-back : (v : Text) (vs : List Text) → front v vs ++ (back v vs ∷ []) ≡ v ∷ vs
unfolding front back
front-back v [] = refl
front-back v (w ∷ ws) = ap (λ xs. v ∷ xs) (front-back w ws)

abbrev neutral : List Text → List Text
neutral cells = map neutralize_csv_formula cells

read_line :
    (rs : List (List Text)) (cs : List Text) (v : Text) (vs : List Text) (rest : Text)
    → is_next (first rest) b'"' ≡ false
    → read_text (plain rs cs []) (csv_line (v ∷ vs) ++ rest)
      ≡ read_text
          (plain rs
            (cs ++ front (neutralize_csv_formula v) (neutral vs))
            (back (neutralize_csv_formula v) (neutral vs)))
          rest
unfolding csv_line join front back escape_csv_cell
read_line rs cs v [] rest h =
    read-quote_cell rs cs (neutralize_csv_formula v) rest h ∙ rw append-nil refl
read_line rs cs v (w ∷ ws) rest h =
    let more = csv_line (w ∷ ws) ++ rest in
    let here = neutralize_csv_formula v in
    ap (read_text (plain rs cs [])) (append_assoc (quote_cell here) (b',' ∷ csv_line (w ∷ ws)) rest)
    ∙ read-quote_cell rs cs here (b',' ∷ more) refl
    ∙ comma here more
    ∙ read_line rs (cs ++ (here ∷ [])) w ws rest h
    ∙ rw append_assoc refl
  where
    comma :
        (f s : Text)
        → read_text (plain rs cs f) (b',' ∷ s) ≡ read_text (plain rs (cs ++ (f ∷ [])) []) s
    comma f s = unfold read_text read_char end_cell in refl

read_line_end :
    (rs : List (List Text)) (v : Text) (vs : List Text) (rest : Text)
    → read_text (plain rs [] []) (csv_line (v ∷ vs) ++ (10 ∷ rest))
      ≡ read_text (plain (rs ++ (neutral (v ∷ vs) ∷ [])) [] []) rest
read_line_end rs v vs rest =
    let front_cells = front (neutralize_csv_formula v) (neutral vs) in
    let last = back (neutralize_csv_formula v) (neutral vs) in
    read_line rs [] v vs (10 ∷ rest) refl
    ∙ line_feed front_cells last
    ∙ ap (λ cells. read_text (plain (rs ++ (cells ∷ [])) [] []) rest)
        (front-back (neutralize_csv_formula v) (neutral vs))
  where
    line_feed :
        (cs : List Text) (f : Text)
        → read_text (plain rs cs f) (10 ∷ rest)
          ≡ read_text (plain (rs ++ ((cs ++ (f ∷ [])) ∷ [])) [] []) rest
    line_feed cs f = unfold read_text read_char end_record in refl

-- The last line has no line end, and a line of two cells or more is not dropped.
read-last_line :
    (rs : List (List Text)) (v w : Text) (ws : List Text)
    → last_record (read_text (plain rs [] []) (csv_line (v ∷ w ∷ ws)))
      ≡ rs ++ (neutral (v ∷ w ∷ ws) ∷ [])
read-last_line rs v w ws =
    let line = csv_line (v ∷ w ∷ ws) in
    let here = neutralize_csv_formula v in
    let next = neutralize_csv_formula w in
    ap (λ s. last_record (read_text (plain rs [] []) s)) (sym (append-nil line))
    ∙ ap last_record (read_line rs [] v (w ∷ ws) [] refl)
    ∙ ended (back here (neutral (w ∷ ws)))
    ∙ ap (λ cells. rs ++ (cells ∷ [])) (front-back here (neutral (w ∷ ws)))
  where
    ended :
        (f : Text)
        → last_record
            (read_text (plain rs (front (neutralize_csv_formula v) (neutral (w ∷ ws))) f) [])
          ≡ rs ++ ((front (neutralize_csv_formula v) (neutral (w ∷ ws)) ++ (f ∷ [])) ∷ [])
    ended [] = unfold read_text last_record end_record front in refl
    ended (c ∷ f) = unfold read_text last_record end_record in refl

abbrev statement_cells : StatementRow → List Text
statement_cells row = neutral (row_cells row)

read_lines :
    (rs : List (List Text)) (v w : Text) (ws : List Text) (rows : List StatementRow)
    → last_record (
        read_text
          (plain rs [] [])
          (join 10 (csv_line (v ∷ w ∷ ws) ∷ map (λ row. csv_line (row_cells row)) rows)))
      ≡ rs ++ (neutral (v ∷ w ∷ ws) ∷ map statement_cells rows)
unfolding join
read_lines rs v w ws [] = read-last_line rs v w ws
read_lines rs v w ws (row ∷ rows) =
    let lines = join 10 (csv_line (row_cells row) ∷ map (λ row. csv_line (row_cells row)) rows) in
    ap last_record (read_line_end rs v (w ∷ ws) lines)
    ∙ read_lines (rs ++ (neutral (v ∷ w ∷ ws) ∷ [])) row.timestamp row.counterparty
        (row.amount ∷ row.asset ∷ status_text row.status ∷ row.memo_or_reference ∷ []) rows
    ∙ append_assoc rs (neutral (v ∷ w ∷ ws) ∷ []) (map statement_cells (row ∷ rows))

status-filled : (s : StatementStatus) → is_blank (neutralize_csv_formula (status_text s)) ≡ false
unfolding is_blank neutralize_csv_formula
status-filled StatementStatus.completed = refl
status-filled StatementStatus.pending = refl
status-filled StatementStatus.failed = refl
status-filled StatementStatus.unknown = refl

row-filled : (row : StatementRow) → some_filled (statement_cells row) ≡ true
unfolding some_filled
row-filled row = fifth (status-filled row.status)
  where
    fifth :
        is_blank (neutralize_csv_formula (status_text row.status)) ≡ false
        → some_filled (statement_cells row) ≡ true
    fifth h = ground arith

rows-filled :
    (rows : List StatementRow)
    → filter some_filled (map statement_cells rows) ≡ map statement_cells rows
rows-filled [] = refl
rows-filled (row ∷ rows) = rw (row-filled row, rows-filled rows) refl

kept_head :
    (cells : List Text) (rest : List (List Text))
    → some_filled cells ≡ true
    → filter some_filled (cells ∷ rest) ≡ cells ∷ filter some_filled rest
kept_head cells rest h = rw h refl

columns-neutral : neutral columns ≡ columns
unfolding neutralize_csv_formula
columns-neutral = refl

columns-filled : some_filled columns ≡ true
unfolding some_filled
columns-filled = refl

-- A statement that is exported as CSV is read as its columns and its rows, cell by cell and whatever
-- characters they have, but for the quotation mark in front of what a spreadsheet would evaluate.
pub parse_csv_records-to_statement_csv :
    (rows : List StatementRow)
    → parse_csv_records (to_statement_csv rows)
      ≡ columns ∷ map (λ row. map neutralize_csv_formula (row_cells row)) rows
unfolding parse_csv_records to_statement_csv
parse_csv_records-to_statement_csv rows =
    ap (filter some_filled)
      (read_all ∙ ap (λ cells. cells ∷ map statement_cells rows) columns-neutral)
    ∙ kept_head columns (map statement_cells rows) columns-filled
    ∙ ap (λ cells. columns ∷ cells) (rows-filled rows)
  where
    read_all :
        last_record (read_text fresh_reader (to_statement_csv rows))
        ≡ neutral columns ∷ map statement_cells rows
    read_all =
        read_lines [] (codes "Timestamp") (codes "Counterparty")
          (codes "Amount" ∷ codes "Asset" ∷ codes "Status" ∷ codes "Memo/Reference" ∷ []) rows

-- A cell that a spreadsheet would evaluate is a plain number.
pub formula_prefix-neutralize :
    (value : Text)
    → formula_prefix (neutralize_csv_formula value) ≡ true
    → plain_number value ≡ true
unfolding neutralize_csv_formula formula_prefix
formula_prefix-neutralize value h = elim (Bool-cases (plain_number value)) [
  | inl e ↦ e
  | inr n ↦ elim (Bool-cases (formula_prefix value)) [
    | inl f ↦ absurd (let z : false ≡ true = rw (n, f) at h in cc z)
    | inr g ↦ absurd (let z : formula_prefix value ≡ true = rw (n, g) at h in cc (z, g))
  ]
]
