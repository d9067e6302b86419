-- ===== src/Payouts/Workers.antt =====
-- The workers of a batch: how many there are, and what holds when they have all ended.
use ancore.Common.{
  ℕ, zero, suc, ◌+◌, ◌-◌, ◌≤◌, ◌<◌, Bool, Option, List, [], ◌∷◌, Text, length, Mem, ◌≡◌, refl, sym,
  ap, subst, ◌∙◌, arith, ◌⊎◌, inl, inr, nat_eq, text_eq,
}
use ancore.Common.Table.{Table}
use ancore.Payouts.Rows.{BulkPayoutRow}
use ancore.Payouts.Batch.{
  CheckpointEntry, BulkPayoutExecution, StoredCheckpoint, Batch, worker_count, take_next,
  start_workers, start_batch, open_batch, record_outcome, remove_index, settle_row, results_from,
  summary, summarise, adopt,
}
use ancore.Payouts.Pool.{
  count, is_settled, inside-lt, Reached, Reached-account, Reached-rows, length-remove_index,
  recorded, inside-le,
}

-- All of `w` workers are busy, or no row is left for them.
abbrev Busy : ℕ → Batch → Type 0
Busy w b = (length b.in_flight ≤ w) × ((b.pending ≡ []) ⊎ (length b.in_flight ≡ w))

take_next-Busy :
    (w : ℕ) (b : Batch)
    → (length b.in_flight ≤ w)
    → (b.pending ≡ []) ⊎ (suc (length b.in_flight) ≡ suc w)
    → Busy (suc w) (take_next b)
unfolding take_next
take_next-Busy w b h k = ground arith

start_workers-Busy : (n w : ℕ) (b : Batch) → Busy w b → Busy (w + n) (start_workers n b)
unfolding start_workers
start_workers-Busy zero w b h = subst (λ x. Busy x b) (let z : w ≡ w + 0 = omega arith in z) h
start_workers-Busy (suc n) w b (most, k) =
    subst (λ x. Busy x (start_workers n (take_next b)))
      (let z : suc w + n ≡ w + suc n = omega arith in z)
      (start_workers-Busy n (suc w) (take_next b) (
        take_next-Busy w b most
          (let z : (b.pending ≡ []) ⊎ (suc (length b.in_flight) ≡ suc w) = ground arith in z)))

worker_count-positive : (c : ℕ) (rows : List BulkPayoutRow) → 0 < worker_count c rows
unfolding worker_count
worker_count-positive c rows = ground arith

worker_count-le : (c : ℕ) (rows : List BulkPayoutRow) → 0 < c → worker_count c rows ≤ c
unfolding worker_count
worker_count-le c rows h = ground arith

settle_row-Busy :
    (writable : Bool) (now : ℕ) (batch_id : Option Text) (index : ℕ) (outcome : CheckpointEntry)
    (row : BulkPayoutRow) (b : Batch) (w : ℕ)
    → Mem index b.in_flight
    → Busy (suc w) b
    → Busy (suc w) (settle_row writable now batch_id index outcome row b)
unfolding settle_row record_outcome
settle_row-Busy writable now batch_id index outcome row b w flies (most, k) =
    let shorter = length-remove_index index b.in_flight flies in
    take_next-Busy w (record_outcome writable now batch_id index outcome row b)
      (omega (arith, shorter)) (still shorter k)
  where
    still :
        suc (length (remove_index index b.in_flight)) ≡ length b.in_flight
        → (b.pending ≡ []) ⊎ (length b.in_flight ≡ suc w)
        → (b.pending ≡ []) ⊎ (suc (length (remove_index index b.in_flight)) ≡ suc w)
    still e (inl p) = inl p
    still e (inr q) = inr (e ∙ q)

results-all :
    (settled : Table ℕ BulkPayoutExecution) (k : ℕ) (rows : List BulkPayoutRow)
    → ((i : ℕ) → k ≤ i → i < k + length rows → is_settled i settled ≡ 1)
    → length (results_from settled k rows) ≡ length rows
unfolding results_from
results-all settled k [] h = refl
results-all settled k (row ∷ rows) h =
    let here = h k (omega arith) (omega arith) in
    let rest = results-all settled (suc k) rows (λ i l u. h i (omega arith) (omega arith)) in
    ground (arith, here, rest)

module _ (concurrency : ℕ) (writable : Bool) (batch_id : Option Text) (rows : List BulkPayoutRow)
    (storage : Option StoredCheckpoint) where
  abbrev workers : ℕ
  workers = worker_count concurrency rows

  Reached-Busy : (b : Batch) → Reached concurrency writable batch_id rows storage b → Busy workers b
  Reached-Busy b Reached.started =
      subst (λ w. Busy w (start_batch concurrency rows batch_id storage))
        (let z : 0 + workers ≡ workers = omega arith in z)
        (unfold start_batch in
          start_workers-Busy workers 0 (open_batch rows batch_id storage)
            (unfold open_batch in (omega arith, inr refl)))
  Reached-Busy _ (Reached.settles now index outcome row b r flies at) =
      let one_more : suc (workers - 1) ≡ workers =
        let z = worker_count-positive concurrency rows in omega (arith, z) in
      subst (λ w. Busy w (settle_row writable now batch_id index outcome row b)) one_more
        (settle_row-Busy writable now batch_id index outcome row b (workers - 1) flies
          (subst (λ w. Busy w b) (sym one_more) (Reached-Busy b r)))

  none_pending :
      (b : Batch)
      → Reached concurrency writable batch_id rows storage b
      → b.in_flight ≡ []
      → b.pending ≡ []
  none_pending b r h = idle (Reached-Busy b r)
    where
      idle : Busy workers b → b.pending ≡ []
      idle (most, inl p) = p
      idle (most, inr q) =
          let z = worker_count-positive concurrency rows in
          let l : length b.in_flight ≡ 0 = ap length h in absurd (omega (arith, z, q, l))

  -- With a positive concurrency, and however the submissions end: no more rows are in flight than the
  -- concurrency allows, and each row is submitted once at most, and not at all if its outcome was
  -- recorded before.
  pub Reached-submitted :
      (b : Batch) (i : ℕ)
      → Reached concurrency writable batch_id rows storage b
      → 0 < concurrency
      → (length b.in_flight ≤ concurrency)
        × (count i b.submitted + is_settled i (adopt (recorded batch_id storage) 0 rows) ≤ 1)
  Reached-submitted b i r h =
      let (most, _) = Reached-Busy b r in
      let few = worker_count-le concurrency rows h in
      let (_, q, _) = Reached-account concurrency writable batch_id rows storage i b r in
      let one = inside-le 0 (length rows) i in (omega arith, omega (arith, q, one))

  -- When nothing is in flight any more, each row was submitted once or recorded before, each has its
  -- result, and the progress that was reported is complete.
  pub finished :
      (b : Batch) (i : ℕ)
      → Reached concurrency writable batch_id rows storage b
      → b.in_flight ≡ []
      → i < length rows
      → (count i b.submitted + is_settled i (adopt (recorded batch_id storage) 0 rows) ≡ 1)
        × (length (summary b).results ≡ length rows)
        × (b.completed ≡ length rows)
  unfolding summary summarise
  finished b i r h l =
      let p = none_pending b r h in
      let (_, q, s) = Reached-account concurrency writable batch_id rows storage i b r in
      let one = inside-lt 0 (length rows) i (omega arith) (omega arith) in
      let empty : count i b.pending ≡ 0 = ap (count i) p in
      let no_rows : length b.pending ≡ 0 = ap length p in
      let no_flight : length b.in_flight ≡ 0 = ap length h in
      (
        omega (arith, q, one, empty),
        ap (λ rs. length (results_from b.settled 0 rs))
              (Reached-rows concurrency writable batch_id rows storage b r)
            ∙ results-all b.settled 0 rows every,
        omega (arith, s, no_rows, no_flight),
      )
    where
      every : (j : ℕ) → 0 ≤ j → j < 0 + length rows → is_settled j b.settled ≡ 1
      every j lo hi =
          let (p, _, _) = Reached-account concurrency writable batch_id rows storage j b r in
          let one = inside-lt 0 (length rows) j (omega arith) (omega arith) in
          let empty : count j b.pending ≡ 0 = ap (count j) (none_pending b r h) in
          let gone : count j b.in_flight ≡ 0 = ap (count j) h in omega (arith, p, one, empty, gone)
