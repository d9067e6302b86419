-- ===== src/Payouts/Resume.antt =====
-- A batch that is run again after a reload: what was settled is not submitted again.
use ancore.Common.{
  ℕ, zero, suc, ◌+◌, Bool, true, Option, none, some, List, Text, length, ◌==◌, ==_iff, text_beq,
  text_beq_iff, ◌≡◌, ◌≢◌, refl, sym, ap, subst, ◌∙◌, arith, inl, inr, nat_eq, text_eq, Option-cases,
  Bool-cases,
}
use ancore.Common.Table
use ancore.Common.Table.{Table, get-set}
use ancore.Payouts.Rows.{BulkPayoutRow}
use ancore.Payouts.Batch.{
  CheckpointEntry, StoredCheckpoint, Batch, take_next, start_workers, start_batch, open_batch,
  record_outcome, settle_row, row_at, read_checkpoint, write_checkpoint, is_given, adopt,
  worker_count,
}
use ancore.Payouts.Pool.{
  count, is_settled, is_settled-set, inside-le, Reached, recorded, Reached-account, Reached-rows,
  take_next-kept,
}
use ancore.Payouts.Checkpoint.{
  read-write_checkpoint, write_checkpoint-ne-none, adopt_settled, adopt_recorded,
}

-- A row that is settled has an entry in the checkpoint.
abbrev Remembered : ℕ → BulkPayoutRow → Batch → Type 0
Remembered i row b = is_settled i b.settled ≡ 1 → Table.get row.id b.entries ≢ none

Remembered-taken :
    (i : ℕ) (row : BulkPayoutRow) (b : Batch) → Remembered i row b → Remembered i row (take_next b)
Remembered-taken i row b h s =
    let (_, p, q, _) = take_next-kept b in
    subst (λ x. Table.get row.id x ≢ none) (sym q) (h (subst (λ x. is_settled i x ≡ 1) p s))

Remembered-settled :
    (writable : Bool) (now index i : ℕ) (batch_id : Option Text) (outcome : CheckpointEntry)
    (row other : BulkPayoutRow) (b : Batch)
    → Remembered i row b
    → row_at b.rows i ≡ some row
    → row_at b.rows index ≡ some other
    → Remembered i row (record_outcome writable now batch_id index outcome other b)
unfolding record_outcome
Remembered-settled writable now index i batch_id outcome row other b h at at' s =
    elim (Bool-cases (index == i)) [
      | inl e ↦
          let z : index ≡ i = (==_iff index i).0 e in
          let same : other ≡ row = some_inj other row (sym at' ∙ ap (row_at b.rows) z ∙ at) in
          let same_id : text_beq other.id row.id ≡ true =
            (text_beq_iff other.id row.id).1 (ap (λ x. x.id) same) in
          let read = get-set row.id other.id outcome b.entries in ground (arith, same_id, read)
      | inr e ↦
          let set = is_settled-set i index (record { row = other; outcome = outcome }) b.settled in
          let before : is_settled i b.settled ≡ 1 = ground (arith, e, set, s) in
          let read = get-set row.id other.id outcome b.entries in
          let old = h before in ground (arith, read, old)
    ]
  where
    some_inj : (x y : BulkPayoutRow) → some x ≡ some y → x ≡ y
    some_inj x y e = cc

module _ (concurrency : ℕ) (id : Text) (given : is_given (some id) ≡ true)
    (rows : List BulkPayoutRow) (storage : Option StoredCheckpoint) (stored : storage ≢ none) where
  -- Storage that can be written holds what is settled.
  abbrev Kept : Batch → Type 0
  Kept b = (b.storage ≢ none) × (read_checkpoint b.storage (some id) ≡ b.entries)

  Kept-taken : (b : Batch) → Kept b → Kept (take_next b)
  Kept-taken b (h, e) =
      let (_, _, s, t) = take_next-kept b in
      (subst (λ x. x ≢ none) (sym t) h, ap (λ x. read_checkpoint x (some id)) t ∙ e ∙ sym s)

  Kept-started : (n : ℕ) (b : Batch) → Kept b → Kept (start_workers n b)
  unfolding start_workers
  Kept-started zero b h = h
  Kept-started (suc n) b h = Kept-started n (take_next b) (Kept-taken b h)

  Kept-recorded :
      (now index : ℕ) (outcome : CheckpointEntry) (row : BulkPayoutRow) (b : Batch)
      → Kept b
      → Kept (record_outcome true now (some id) index outcome row b)
  unfolding record_outcome
  Kept-recorded now index outcome row b (h, e) =
      let entries = Table.set row.id outcome b.entries in
      (
        write_checkpoint-ne-none now b.storage (some id) entries h,
        elim (Option-cases b.storage) [
          | inl n ↦ absurd (h n)
          | inr (s, q) ↦
              ap (λ x. read_checkpoint (write_checkpoint true now x (some id) entries) (some id)) q
              ∙ read-write_checkpoint now s id entries given
        ],
      )

  Kept-settled :
      (now index : ℕ) (outcome : CheckpointEntry) (row : BulkPayoutRow) (b : Batch)
      → Kept b
      → Kept (settle_row true now (some id) index outcome row b)
  unfolding settle_row
  Kept-settled now index outcome row b h =
      Kept-taken (record_outcome true now (some id) index outcome row b)
        (Kept-recorded now index outcome row b h)

  Kept-opened : Kept (open_batch rows (some id) storage)
  unfolding open_batch
  Kept-opened = (stored, refl)

  Reached-Kept : (b : Batch) → Reached concurrency true (some id) rows storage b → Kept b
  Reached-Kept b Reached.started =
      unfold start_batch in
      Kept-started (worker_count concurrency rows) (open_batch rows (some id) storage) Kept-opened
  Reached-Kept _ (Reached.settles now index outcome row b r flies at) =
      Kept-settled now index outcome row b (Reached-Kept b r)

module _ (concurrency : ℕ) (writable : Bool) (batch_id : Option Text) (rows : List BulkPayoutRow)
    (storage : Option StoredCheckpoint) (i : ℕ) (row : BulkPayoutRow)
    (at : row_at rows i ≡ some row) where
  Remembered-started :
      (n : ℕ) (b : Batch) → Remembered i row b → Remembered i row (start_workers n b)
  unfolding start_workers
  Remembered-started zero b h = h
  Remembered-started (suc n) b h = Remembered-started n (take_next b) (Remembered-taken i row b h)

  Remembered-opened : Remembered i row (open_batch rows batch_id storage)
  unfolding open_batch
  Remembered-opened s n = cc (
      adopt_recorded (recorded batch_id storage) 0 i rows at
        (subst (λ x. is_settled x (adopt (recorded batch_id storage) 0 rows) ≡ 1)
          (let z : i ≡ 0 + i = omega arith in z) s)
        n)

  Remembered-end :
      (now index : ℕ) (outcome : CheckpointEntry) (other : BulkPayoutRow) (b : Batch)
      → Remembered i row b
      → row_at b.rows i ≡ some row
      → row_at b.rows index ≡ some other
      → Remembered i row (settle_row writable now batch_id index outcome other b)
  unfolding settle_row
  Remembered-end now index outcome other b h here there =
      Remembered-taken i row (record_outcome writable now batch_id index outcome other b)
        (Remembered-settled writable now index i batch_id outcome row other b h here there)

  Reached-Remembered :
      (b : Batch) → Reached concurrency writable batch_id rows storage b → Remembered i row b
  Reached-Remembered b Reached.started =
      unfold start_batch in
      Remembered-started (worker_count concurrency rows) (open_batch rows batch_id storage)
        Remembered-opened
  Reached-Remembered _ (Reached.settles now index outcome other b r flies there) =
      let same = Reached-rows concurrency writable batch_id rows storage b r in
      Remembered-end now index outcome other b (Reached-Remembered b r)
        (ap (λ rs. row_at rs i) same ∙ at) there

-- With a batch id and storage that can be written, a row that was settled is not submitted by a later
-- run of the same batch, at whatever point the first run was broken off and however the submissions of
-- the second one end.
pub resumed-count :
    (concurrency : ℕ) (id : Text) (rows : List BulkPayoutRow) (storage : Option StoredCheckpoint)
    (i : ℕ) (row : BulkPayoutRow) (b later : Batch)
    → is_given (some id) ≡ true
    → storage ≢ none
    → row_at rows i ≡ some row
    → Reached concurrency true (some id) rows storage b
    → is_settled i b.settled ≡ 1
    → Reached concurrency true (some id) rows b.storage later
    → count i later.submitted ≡ 0
resumed-count concurrency id rows storage i row b later given stored at r settled r' =
    let (_, kept) = Reached-Kept concurrency id given rows storage stored b r in
    let there = Reached-Remembered concurrency true (some id) rows storage i row at b r settled in
    let (_, account, _) = Reached-account concurrency true (some id) rows b.storage i later r' in
    let most = inside-le 0 (length rows) i in
    let adopted = was_adopted (recorded (some id) b.storage) kept there in
    omega (arith, account, most, adopted)
  where
    was_adopted :
        (entries : Table Text CheckpointEntry)
        → entries ≡ b.entries
        → Table.get row.id b.entries ≢ none
        → is_settled i (adopt entries 0 rows) ≡ 1
    was_adopted entries e h = elim (Option-cases (Table.get row.id entries)) [
      | inl n ↦ absurd (h (ap (Table.get row.id) (sym e) ∙ n))
      | inr (x, g) ↦
          subst (λ j. is_settled j (adopt entries 0 rows) ≡ 1)
            (let z : 0 + i ≡ i = omega arith in z) (adopt_settled entries 0 i rows at g)
    ]
