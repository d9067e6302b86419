-- ===== src/Payouts/Cells.antt =====
-- The CSV of one cell, read by the reader of the bulk payouts.
use mathlib.Core.List.{append-nil, append_assoc}
use ancore.Common.{
  ℕ, true, false, Option, List, [], ◌∷◌, ◌++◌, Text, first, ◌==◌, ◌≡◌, refl, ap, ◌∙◌, arith, inl,
  inr, Bool-cases,
}
use ancore.Payouts.Csv.{Reader, is_next, read_char, read_text}
use ancore.Payouts.Statement.{is_special, has_special, doubled, quote_cell}

-- A reader between two characters, outside quotes and within.
abbrev pub plain : List (List Text) → List Text → Text → Reader
plain rs cs f = record { records = rs; cells = cs; field = f; in_quotes = false; skip = false }

abbrev quoted : List (List Text) → List Text → Text → Reader
quoted rs cs f = record { records = rs; cells = cs; field = f; in_quotes = true; skip = false }

abbrev skipping : List (List Text) → List Text → Text → Reader
skipping rs cs f = record { records = rs; cells = cs; field = f; in_quotes = true; skip = true }

module _ (rs : List (List Text)) (cs : List Text) where
  read-plain_char :
      (f : Text) (c : ℕ) (next : Option ℕ)
      → is_special c ≡ false
      → read_char (plain rs cs f) c next ≡ plain rs cs (f ++ (c ∷ []))
  unfolding read_char
  read-plain_char f c next h = ground arith

  read_plain :
      (v rest f : Text)
      → has_special v ≡ false
      → read_text (plain rs cs f) (v ++ rest) ≡ read_text (plain rs cs (f ++ v)) rest
  unfolding read_text has_special
  read_plain [] rest f h = rw append-nil refl
  read_plain (c ∷ v) rest f h =
      ap (λ r. read_text r (v ++ rest)) (read-plain_char f c (first (v ++ rest)) (ground arith))
      ∙ read_plain v rest (f ++ (c ∷ [])) (ground arith)
      ∙ rw append_assoc refl

  read-quoted_char :
      (f : Text) (c : ℕ) (next : Option ℕ)
      → (c == b'"') ≡ false
      → read_char (quoted rs cs f) c next ≡ quoted rs cs (f ++ (c ∷ []))
  unfolding read_char
  read-quoted_char f c next h = ground arith

  read_doubled :
      (v rest f : Text)
      → read_text (quoted rs cs f) (doubled v ++ rest) ≡ read_text (quoted rs cs (f ++ v)) rest
  unfolding read_text doubled
  read_doubled [] rest f = rw append-nil refl
  read_doubled (c ∷ v) rest f = elim (Bool-cases (c == b'"')) [
    | inl e ↦ rw e (
        two (doubled v ++ rest)
        ∙ read_doubled v rest (f ++ (b'"' ∷ []))
        ∙ rw append_assoc (
            ap (λ x. read_text (quoted rs cs (f ++ (x ∷ v))) rest)
              (let z : 34 ≡ c = ground arith in z)))
    | inr n ↦ rw n (
        ap (λ r. read_text r (doubled v ++ rest))
          (read-quoted_char f c (first (doubled v ++ rest)) n)
        ∙ read_doubled v rest (f ++ (c ∷ []))
        ∙ rw append_assoc refl)
  ]
    where
      two :
          (s : Text)
          → read_text (quoted rs cs f) (b'"' ∷ b'"' ∷ s)
            ≡ read_text (quoted rs cs (f ++ (b'"' ∷ []))) s
      two s = unfold read_char in refl

  read-closing_quote :
      (f rest : Text)
      → is_next (first rest) b'"' ≡ false
      → read_text (quoted rs cs f) (b'"' ∷ rest) ≡ read_text (plain rs cs f) rest
  unfolding read_text read_char
  read-closing_quote f rest h = rw h refl

  -- A cell is read as what was written, whatever characters it has.
  pub read-quote_cell :
      (v rest : Text)
      → is_next (first rest) b'"' ≡ false
      → read_text (plain rs cs []) (quote_cell v ++ rest) ≡ read_text (plain rs cs v) rest
  unfolding quote_cell
  read-quote_cell v rest h = elim (Bool-cases (has_special v)) [
    | inl e ↦
        rw (e, append_assoc)
          (opening (doubled v ++ (b'"' ∷ rest))
            ∙ read_doubled v (b'"' ∷ rest) []
            ∙ read-closing_quote v rest h)
    | inr n ↦ rw n (read_plain v rest [] n)
  ]
    where
      opening : (s : Text) → read_text (plain rs cs []) (b'"' ∷ s) ≡ read_text (quoted rs cs []) s
      opening s = unfold read_text read_char in refl
