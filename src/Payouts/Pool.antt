-- ===== src/Payouts/Pool.antt =====
-- The workers of a batch: which rows are submitted, and how often.
use ancore.Common.{
  ℕ, zero, suc, ◌+◌, ◌≤◌, ◌<◌, Bool, Option, none, some, List, [], ◌∷◌, Text, length, ◌==◌,
  if◌then◌else◌, Mem, ◌≡◌, refl, ap, subst, ◌∙◌, arith, inl, inr, Bool-cases, Option-cases, text_eq,
  nat_eq, ==_iff,
}
use ancore.Common.Table
use ancore.Common.Table.{Table, get-set}
use ancore.Payouts.Rows.{BulkPayoutRow}
use ancore.Payouts.Batch.{
  CheckpointEntry, BulkPayoutExecution, StoredCheckpoint, Batch, adopt, pending_from, count_adopted,
  worker_count, take_next, start_workers, start_batch, open_batch, record_outcome, remove_index,
  settle_row, row_at, read_checkpoint,
}

abbrev pub count : ℕ → List ℕ → ℕ
count i [] = 0
count i (j ∷ js) = (if j == i then 1 else 0) + count i js

abbrev pub is_settled : ℕ → Table ℕ BulkPayoutExecution → ℕ
is_settled i m = elim (Table.get i m) [ none ↦ 0 | some r ↦ 1 ]

-- 1 for an index of the `n` from `k` on.
abbrev pub inside : ℕ → ℕ → ℕ → ℕ
inside k zero i = 0
inside k (suc n) i = if k == i then 1 else inside (suc k) n i

pub inside-later : (k n i : ℕ) → i < k → inside k n i ≡ 0
inside-later k zero i h = refl
inside-later k (suc n) i h = ground (arith, inside-later (suc k) n i)

-- A batch that can arise, by submissions that end in any order and in any way.
pub data Reached (concurrency : ℕ) (writable : Bool) (batch_id : Option Text)
    (rows : List BulkPayoutRow) (storage : Option StoredCheckpoint) : Batch → Type 0 where
  started :
      Reached concurrency writable batch_id rows storage
        (start_batch concurrency rows batch_id storage)
  settles :
      (now index : ℕ) (outcome : CheckpointEntry) (row : BulkPayoutRow) (b : Batch)
      → Reached concurrency writable batch_id rows storage b
      → Mem index b.in_flight
      → row_at b.rows index ≡ some row
      → Reached concurrency writable batch_id rows storage
          (settle_row writable now batch_id index outcome row b)

pub is_settled-set :
    (i k : ℕ) (r : BulkPayoutExecution) (m : Table ℕ BulkPayoutExecution)
    → is_settled i (Table.set k r m) ≡ (if k == i then 1 else is_settled i m)
is_settled-set i k r m = ground (arith, get-set i k r m)

-- Each row is pending or adopted.
pub pending-adopted :
    (entries : Table Text CheckpointEntry) (k : ℕ) (rows : List BulkPayoutRow) (i : ℕ)
    → count i (pending_from entries k rows) + is_settled i (adopt entries k rows)
      ≡ inside k (length rows) i
unfolding adopt pending_from
pending-adopted entries k [] i = unfold Table.get in refl
pending-adopted entries k (row ∷ rows) i = elim (Option-cases (Table.get row.id entries)) [
  | inl e ↦
      let ih = pending-adopted entries (suc k) rows i in
      let later = inside-later (suc k) (length rows) i in ground (arith, e, ih, later)
  | inr (r, e) ↦
      let adopted = adopt entries (suc k) rows in
      let ih = pending-adopted entries (suc k) rows i in
      let later = inside-later (suc k) (length rows) i in
      let set = is_settled-set i k (record { row = row; outcome = r }) adopted in
      ground (arith, e, ih, later, set)
]

adopted-pending :
    (entries : Table Text CheckpointEntry) (k : ℕ) (rows : List BulkPayoutRow)
    → count_adopted entries rows + length (pending_from entries k rows) ≡ length rows
unfolding count_adopted pending_from
adopted-pending entries k [] = refl
adopted-pending entries k (row ∷ rows) = ground (arith, adopted-pending entries (suc k) rows)

count-remove_index :
    (i j : ℕ) (js : List ℕ)
    → Mem j js
    → count i (remove_index j js) + (if j == i then 1 else 0) ≡ count i js
unfolding remove_index
count-remove_index i j [] m = elim m [ ]
count-remove_index i j (k ∷ js) (inl e) = ground (arith, e)
count-remove_index i j (k ∷ js) (inr m) = ground (arith, count-remove_index i j js m)

pub length-remove_index :
    (j : ℕ) (js : List ℕ) → Mem j js → suc (length (remove_index j js)) ≡ length js
unfolding remove_index
length-remove_index j [] m = elim m [ ]
length-remove_index j (k ∷ js) (inl e) = ground (arith, e)
length-remove_index j (k ∷ js) (inr m) = ground (arith, length-remove_index j js m)

-- The account of one row, and of the batch.
abbrev whereabouts : ℕ → Batch → ℕ
whereabouts i b = count i b.pending + count i b.in_flight + is_settled i b.settled

abbrev calls : ℕ → Batch → ℕ
calls i b = count i b.pending + count i b.submitted

abbrev progress : Batch → ℕ
progress b = b.completed + length b.in_flight + length b.pending

take_next-account :
    (i : ℕ) (b : Batch)
    → (whereabouts i (take_next b) ≡ whereabouts i b)
      × (calls i (take_next b) ≡ calls i b)
      × (progress (take_next b) ≡ progress b)
unfolding take_next
take_next-account i b = ground arith

pub take_next-kept :
    (b : Batch)
    → ((take_next b).rows ≡ b.rows)
      × ((take_next b).settled ≡ b.settled)
      × ((take_next b).entries ≡ b.entries)
      × ((take_next b).storage ≡ b.storage)
unfolding take_next
take_next-kept b = ground arith

start_workers-account :
    (n i : ℕ) (b : Batch)
    → (whereabouts i (start_workers n b) ≡ whereabouts i b)
      × (calls i (start_workers n b) ≡ calls i b)
      × (progress (start_workers n b) ≡ progress b)
unfolding start_workers
start_workers-account zero i b = (refl, refl, refl)
start_workers-account (suc n) i b =
    let (p, q, r) = start_workers-account n i (take_next b) in
    let (p', q', r') = take_next-account i b in (p ∙ p', q ∙ q', r ∙ r')

pub start_workers-kept :
    (n : ℕ) (b : Batch)
    → ((start_workers n b).rows ≡ b.rows)
      × ((start_workers n b).settled ≡ b.settled)
      × ((start_workers n b).entries ≡ b.entries)
      × ((start_workers n b).storage ≡ b.storage)
unfolding start_workers
start_workers-kept zero b = (refl, refl, refl, refl)
start_workers-kept (suc n) b =
    let (p, q, r, s) = start_workers-kept n (take_next b) in
    let (p', q', r', s') = take_next-kept b in (p ∙ p', q ∙ q', r ∙ r', s ∙ s')

pub inside-le : (k n i : ℕ) → inside k n i ≤ 1
inside-le k zero i = omega arith
inside-le k (suc n) i = ground (arith, inside-le (suc k) n i)

pub inside-lt : (k n i : ℕ) → k ≤ i → i < k + n → inside k n i ≡ 1
inside-lt k zero i h l = absurd (omega arith)
inside-lt k (suc n) i h l = ground (arith, inside-lt (suc k) n i)

pub count-mem : (i : ℕ) (js : List ℕ) → Mem i js → 0 < count i js
count-mem i [] m = elim m [ ]
count-mem i (j ∷ js) (inl e) = ground (arith, e)
count-mem i (j ∷ js) (inr m) = ground (arith, count-mem i js m)

module _ (writable : Bool) (now : ℕ) (batch_id : Option Text) (index : ℕ)
    (outcome : CheckpointEntry) (row : BulkPayoutRow) (b : Batch)
    (flies : Mem index b.in_flight) where
  -- The end of a submission moves a row from those in flight to those settled.
  settle_row-account :
      (i : ℕ)
      → whereabouts index b ≤ 1
      → (whereabouts i (settle_row writable now batch_id index outcome row b) ≡ whereabouts i b)
        × (calls i (settle_row writable now batch_id index outcome row b) ≡ calls i b)
        × (progress (settle_row writable now batch_id index outcome row b) ≡ progress b)
  unfolding settle_row record_outcome
  settle_row-account i once =
      let here = count-mem index b.in_flight flies in
      let fewer = count-remove_index i index b.in_flight flies in
      let shorter = length-remove_index index b.in_flight flies in
      let set = is_settled-set i index (record { row = row; outcome = outcome }) b.settled in
      let (p, q, r) =
        take_next-account i (record_outcome writable now batch_id index outcome row b) in
      (p ∙ moved here fewer set, q, r ∙ omega (arith, shorter))
    where
      moved :
          0 < count index b.in_flight
          → count i (remove_index index b.in_flight) + (if index == i then 1 else 0)
            ≡ count i b.in_flight
          → is_settled i (Table.set index (record { row = row; outcome = outcome }) b.settled)
            ≡ (if index == i then 1 else is_settled i b.settled)
          → count i b.pending
              + count i (remove_index index b.in_flight)
              + is_settled i (Table.set index (record { row = row; outcome = outcome }) b.settled)
            ≡ whereabouts i b
      moved h f s = elim (Bool-cases (index == i)) [
        | inl e ↦
            let z : index ≡ i = (==_iff index i).0 e in
            let h' : 0 < count i b.in_flight = subst (λ x. 0 < count x b.in_flight) z h in
            let once' : whereabouts i b ≤ 1 = subst (λ x. whereabouts x b ≤ 1) z once in
            let f' = rw e at f in let s' = rw e at s in omega (arith, f', s', h', once')
        | inr e ↦ let f' = rw e at f in let s' = rw e at s in omega (arith, f', s')
      ]

  settle_row-rows : (settle_row writable now batch_id index outcome row b).rows ≡ b.rows
  unfolding settle_row record_outcome
  settle_row-rows = (take_next-kept _).0

-- What storage has recorded for the batch.
abbrev pub recorded : Option Text → Option StoredCheckpoint → Table Text CheckpointEntry
recorded batch_id storage = read_checkpoint storage batch_id

module _ (concurrency : ℕ) (writable : Bool) (batch_id : Option Text) (rows : List BulkPayoutRow)
    (storage : Option StoredCheckpoint) where
  start-account :
      (i : ℕ)
      → (whereabouts i (start_batch concurrency rows batch_id storage) ≡ inside 0 (length rows) i)
        × (calls i (start_batch concurrency rows batch_id storage)
              + is_settled i (adopt (recorded batch_id storage) 0 rows)
            ≡ inside 0 (length rows) i)
        × (progress (start_batch concurrency rows batch_id storage) ≡ length rows)
  unfolding start_batch open_batch
  start-account i =
      let (p, q, r) =
        start_workers-account (worker_count concurrency rows) i
          (open_batch rows batch_id storage) in
      let all_rows = pending-adopted (recorded batch_id storage) 0 rows i in
      let as_many = adopted-pending (recorded batch_id storage) 0 rows in
      (p ∙ omega (arith, all_rows), omega (arith, q, all_rows), r ∙ omega (arith, as_many))

  -- At any time, a row is pending, in flight or settled; it was submitted once if it is no longer
  -- pending and was not recorded before; and what is reported as completed is what is left over.
  pub Reached-account :
      (i : ℕ) (b : Batch)
      → Reached concurrency writable batch_id rows storage b
      → (whereabouts i b ≡ inside 0 (length rows) i)
        × (calls i b + is_settled i (adopt (recorded batch_id storage) 0 rows)
            ≡ inside 0 (length rows) i)
        × (progress b ≡ length rows)
  Reached-account i b Reached.started = start-account i
  Reached-account i _ (Reached.settles now index outcome row b r flies at) =
      let (p, q, s) = Reached-account i b r in
      let (there, _, _) = Reached-account index b r in
      let most = inside-le 0 (length rows) index in
      let (p', q', s') =
        settle_row-account writable now batch_id index outcome row b flies i
          (omega (arith, there, most)) in
      (p' ∙ p, ap (λ x. x + is_settled i (adopt (recorded batch_id storage) 0 rows)) q' ∙ q, s' ∙ s)

  pub Reached-rows :
      (b : Batch) → Reached concurrency writable batch_id rows storage b → b.rows ≡ rows
  Reached-rows b Reached.started =
      unfold start_batch open_batch in
      (start_workers-kept (worker_count concurrency rows) (open_batch rows batch_id storage)).0
  Reached-rows _ (Reached.settles now index outcome row b r flies at) =
      settle_row-rows writable now batch_id index outcome row b flies ∙ Reached-rows b r
