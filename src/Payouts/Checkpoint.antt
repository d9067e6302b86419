-- ===== src/Payouts/Checkpoint.antt =====
-- What a checkpoint holds is what the next run adopts.
use ancore.Common.{
  ℕ, zero, suc, ◌+◌, ◌<◌, true, false, Option, none, some, List, [], ◌∷◌, Text, length, text_beq,
  text_beq_iff, ◌≡◌, ◌≢◌, refl, ap, subst, ◌∙◌, arith, inl, inr, nat_eq, text_eq, Option-cases,
}
use ancore.Common.Table
use ancore.Common.Table.{Table, get-set}
use ancore.Payouts.Rows.{BulkPayoutRow}
use ancore.Payouts.Batch.{
  CheckpointEntry, StoredCheckpoint, row_at, read_checkpoint, read_stored, write_checkpoint,
  is_given, adopt,
}
use ancore.Payouts.Pool.{is_settled, is_settled-set, inside-later, pending-adopted}

-- What is written is read again.
pub read-write_checkpoint :
    (now : ℕ) (stored : StoredCheckpoint) (id : Text) (entries : Table Text CheckpointEntry)
    → is_given (some id) ≡ true
    → read_checkpoint (write_checkpoint true now (some stored) (some id) entries) (some id)
      ≡ entries
unfolding read_checkpoint write_checkpoint read_stored
read-write_checkpoint now stored [] entries h = absurd (let z : false ≡ true = h in cc z)
read-write_checkpoint now stored (c ∷ s) entries h =
    let same : text_beq (c ∷ s) (c ∷ s) ≡ true = (text_beq_iff (c ∷ s) (c ∷ s)).1 refl in
    ground (arith, same)

pub write_checkpoint-ne-none :
    (now : ℕ) (storage : Option StoredCheckpoint) (id : Option Text)
    (entries : Table Text CheckpointEntry)
    → storage ≢ none
    → write_checkpoint true now storage id entries ≢ none
unfolding write_checkpoint
write_checkpoint-ne-none now none id entries h = absurd (h refl)
write_checkpoint-ne-none now (some stored) none entries h = h
write_checkpoint-ne-none now (some stored) (some id) entries h = ground arith

pub adopt_settled :
    (entries : Table Text CheckpointEntry) (k i : ℕ) (rows : List BulkPayoutRow)
    {row : BulkPayoutRow} {e : CheckpointEntry}
    → row_at rows i ≡ some row
    → Table.get row.id entries ≡ some e
    → is_settled (k + i) (adopt entries k rows) ≡ 1
unfolding adopt row_at
adopt_settled entries k i [] h g = cc
adopt_settled entries k zero (r ∷ rows) {row} {e} h g =
    let here : Table.get r.id entries ≡ some e =
      ap (λ (o : Option BulkPayoutRow). elim o [ none ↦ none | some x ↦ Table.get x.id entries ]) h
      ∙ g in
    let set =
      is_settled-set (k + 0) k (record { row = r; outcome = e }) (adopt entries (suc k) rows) in
    ground (arith, here, set)
adopt_settled entries k (suc i) (r ∷ rows) h g =
    let ih = adopt_settled entries (suc k) i rows h g in
    let ih' : is_settled (k + suc i) (adopt entries (suc k) rows) ≡ 1 =
      subst (λ x. is_settled x (adopt entries (suc k) rows) ≡ 1)
        (let z : suc k + i ≡ k + suc i = omega arith in z) ih in
    elim (Option-cases (Table.get r.id entries)) [
      | inl n ↦ ground (arith, n, ih')
      | inr (x, s) ↦
          let set =
            is_settled-set (k + suc i) k (record { row = r; outcome = x })
              (adopt entries (suc k) rows) in
          ground (arith, s, ih', set)
    ]

adopt_later :
    (entries : Table Text CheckpointEntry) (k i : ℕ) (rows : List BulkPayoutRow)
    → i < k
    → is_settled i (adopt entries k rows) ≡ 0
adopt_later entries k i rows h =
    let a = pending-adopted entries k rows i in
    let z = inside-later k (length rows) i h in omega (arith, a, z)

pub adopt_recorded :
    (entries : Table Text CheckpointEntry) (k i : ℕ) (rows : List BulkPayoutRow)
    {row : BulkPayoutRow}
    → row_at rows i ≡ some row
    → is_settled (k + i) (adopt entries k rows) ≡ 1
    → Table.get row.id entries ≡ none
    → false ≡ true
unfolding adopt row_at
adopt_recorded entries k i [] h s n = cc
adopt_recorded entries k zero (r ∷ rows) {row} h s n =
    let here : Table.get r.id entries ≡ none =
      ap (λ (o : Option BulkPayoutRow). elim o [ none ↦ none | some x ↦ Table.get x.id entries ]) h
      ∙ n in
    let none_later = adopt_later entries (suc k) (k + 0) rows (omega arith) in
    ground (arith, here, s, none_later)
adopt_recorded entries k (suc i) (r ∷ rows) {row} h s m =
    adopt_recorded entries (suc k) i rows h
      (subst (λ x. is_settled x (adopt entries (suc k) rows) ≡ 1)
        (let z : k + suc i ≡ suc k + i = omega arith in z) later)
      m
  where
    later : is_settled (k + suc i) (adopt entries (suc k) rows) ≡ 1
    later = elim (Option-cases (Table.get r.id entries)) [
      | inl n ↦ ground (arith, n, s)
      | inr (x, e) ↦
          let set =
            is_settled-set (k + suc i) k (record { row = r; outcome = x })
              (adopt entries (suc k) rows) in
          ground (arith, e, s, set)
    ]
