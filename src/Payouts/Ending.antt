-- ===== src/Payouts/Ending.antt =====
-- The end of a batch: the rows in flight end one after another, in whatever order.
use ancore.Common.{
  ℕ, zero, suc, ◌+◌, ◌<◌, Bool, Option, none, some, List, [], ◌∷◌, Text, length, Mem, ◌≡◌, ◌≢◌,
  refl, sym, ap, subst, ◌∙◌, arith, ◌⊎◌, inl, inr, nat_eq, text_eq, Option-cases,
}
use ancore.Payouts.Rows.{BulkPayoutRow}
use ancore.Payouts.Batch.{
  CheckpointEntry, StoredCheckpoint, Batch, start_batch, record_outcome, settle_row, take_next,
  row_at, summary, adopt,
}
use ancore.Payouts.Pool.{
  count, is_settled, inside, inside-le, count-mem, Reached, Reached-account, Reached-rows, recorded,
}
use ancore.Payouts.Workers.{finished}

-- One of the submissions in flight ends, at a time and with an outcome.
pub record Turn : Type 0 where
  pub pick : ℕ
  pub now : ℕ
  pub outcome : CheckpointEntry

-- The one at a position, or the last.
unfoldable chosen : ℕ → ℕ → List ℕ → ℕ
chosen pick i [] = i
chosen zero i (j ∷ js) = i
chosen (suc pick) i (j ∷ js) = chosen pick j js

unfoldable end_one : Bool → Option Text → Turn → Batch → Batch
unfolding chosen
end_one writable batch_id turn b = elim b.in_flight [
  | [] ↦ b
  | i ∷ js ↦ elim (row_at b.rows (chosen turn.pick i js)) [
    | none ↦ b
    | some row ↦ settle_row writable turn.now batch_id (chosen turn.pick i js) turn.outcome row b
  ]
]

-- As many turns, as long as something is in flight.
unfoldable pub play : Bool → Option Text → (ℕ → Turn) → ℕ → Batch → Batch
unfolding end_one
play writable batch_id turn zero b = b
play writable batch_id turn (suc n) b =
    play writable batch_id turn n (end_one writable batch_id (turn n) b)

chosen-Mem : (pick i : ℕ) (js : List ℕ) → Mem (chosen pick i js) (i ∷ js)
unfolding chosen
chosen-Mem pick i [] = inl refl
chosen-Mem zero i (j ∷ js) = inl refl
chosen-Mem (suc pick) i (j ∷ js) = inr (chosen-Mem pick j js)

inside-row_at :
    (k i : ℕ) (rows : List BulkPayoutRow)
    → inside k (length rows) (k + i) ≡ 1
    → row_at rows i ≢ none
unfolding row_at
inside-row_at k i [] h = absurd (omega (arith, h))
inside-row_at k zero (r ∷ rows) h = ground arith
inside-row_at k (suc i) (r ∷ rows) h = inside-row_at (suc k) i rows (
    subst (λ x. inside (suc k) (length rows) x ≡ 1)
      (let z : k + suc i ≡ suc k + i = omega arith in z) (ground (arith, h)))

List-cases : (js : List ℕ) → (js ≡ []) ⊎ ((i : ℕ) × (ks : List ℕ) × (js ≡ i ∷ ks))
List-cases [] = inl refl
List-cases (i ∷ ks) = inr (i, ks, refl)

module _ (writable : Bool) (batch_id : Option Text) (turn : Turn) (b : Batch) where
  end_one-idle : b.in_flight ≡ [] → end_one writable batch_id turn b ≡ b
  unfolding end_one
  end_one-idle h = ground (arith, h)

  end_one-settles :
      (i : ℕ) (js : List ℕ) (row : BulkPayoutRow)
      → b.in_flight ≡ i ∷ js
      → row_at b.rows (chosen turn.pick i js) ≡ some row
      → end_one writable batch_id turn b
        ≡ settle_row writable turn.now batch_id (chosen turn.pick i js) turn.outcome row b
  unfolding end_one
  end_one-settles i js row h at = ground (arith, h, at)

settle_row-completed :
    (writable : Bool) (now index : ℕ) (batch_id : Option Text) (outcome : CheckpointEntry)
    (row : BulkPayoutRow) (b : Batch)
    → (settle_row writable now batch_id index outcome row b).completed ≡ suc b.completed
unfolding settle_row record_outcome take_next
settle_row-completed writable now index batch_id outcome row b = ground arith

play-idle :
    (writable : Bool) (batch_id : Option Text) (turn : ℕ → Turn) (n : ℕ) (b : Batch)
    → b.in_flight ≡ []
    → (play writable batch_id turn n b).in_flight ≡ []
unfolding play
play-idle writable batch_id turn zero b h = h
play-idle writable batch_id turn (suc n) b h =
    play-idle writable batch_id turn n (end_one writable batch_id (turn n) b)
      (ap (λ x. x.in_flight) (end_one-idle writable batch_id (turn n) b h) ∙ h)

module _ (concurrency : ℕ) (writable : Bool) (batch_id : Option Text) (rows : List BulkPayoutRow)
    (storage : Option StoredCheckpoint) where
  abbrev Reachable : Batch → Type 0
  Reachable b = Reached concurrency writable batch_id rows storage b

  flying-row_at : (b : Batch) (i : ℕ) → Reachable b → Mem i b.in_flight → row_at b.rows i ≢ none
  flying-row_at b i r flies =
      let (p, _, _) = Reached-account concurrency writable batch_id rows storage i b r in
      let here = count-mem i b.in_flight flies in
      let most = inside-le 0 (length rows) i in
      let one : inside 0 (length rows) i ≡ 1 = omega (arith, p, here, most) in
      let at_zero : inside 0 (length rows) (0 + i) ≡ 1 =
        subst (λ x. inside 0 (length rows) x ≡ 1) (let z : i ≡ 0 + i = omega arith in z) one in
      let same = Reached-rows concurrency writable batch_id rows storage b r in
      subst (λ rs. row_at rs i ≢ none) (sym same) (inside-row_at 0 i rows at_zero)

  -- A turn ends one submission.
  end_one-Reached :
      (turn : Turn) (b : Batch)
      → Reachable b
      → Reachable (end_one writable batch_id turn b)
        × ((b.in_flight ≡ []) ⊎ ((end_one writable batch_id turn b).completed ≡ suc b.completed))
  end_one-Reached turn b r = elim (List-cases b.in_flight) [
    | inl e ↦ (subst Reachable (sym (end_one-idle writable batch_id turn b e)) r, inl e)
    | inr (i, js, e) ↦
        let flies : Mem (chosen turn.pick i js) b.in_flight =
          subst (Mem (chosen turn.pick i js)) (sym e) (chosen-Mem turn.pick i js) in
        elim (Option-cases (row_at b.rows (chosen turn.pick i js))) [
          | inl n ↦ absurd (flying-row_at b (chosen turn.pick i js) r flies n)
          | inr (row, at) ↦
              let same = end_one-settles writable batch_id turn b i js row e at in
              (
                subst Reachable (sym same) (
                    Reached.settles turn.now (chosen turn.pick i js) turn.outcome row b r flies at),
                inr (
                    ap (λ x. x.completed) same
                    ∙ settle_row-completed writable turn.now (chosen turn.pick i js) batch_id
                        turn.outcome row b),
              )
        ]
  ]

  play-Reached :
      (turn : ℕ → Turn) (n : ℕ) (b : Batch)
      → Reachable b
      → Reachable (play writable batch_id turn n b)
        × (((play writable batch_id turn n b).in_flight ≡ [])
            ⊎ ((play writable batch_id turn n b).completed ≡ n + b.completed))
  unfolding play
  play-Reached turn zero b r = (r, inr (omega arith))
  play-Reached turn (suc n) b r =
      let (r', one) = end_one-Reached (turn n) b r in
      let (r'', rest) = play-Reached turn n (end_one writable batch_id (turn n) b) r' in
      (r'', both one rest)
    where
      both :
          (b.in_flight ≡ []) ⊎ ((end_one writable batch_id (turn n) b).completed ≡ suc b.completed)
          → ((play writable batch_id turn n (end_one writable batch_id (turn n) b)).in_flight ≡ [])
            ⊎ ((play writable batch_id turn n (end_one writable batch_id (turn n) b)).completed
                ≡ n + (end_one writable batch_id (turn n) b).completed)
          → ((play writable batch_id turn (suc n) b).in_flight ≡ [])
            ⊎ ((play writable batch_id turn (suc n) b).completed ≡ suc n + b.completed)
      both (inl e) rest = inl (play-idle writable batch_id turn (suc n) b e)
      both (inr c) (inl e) = inl e
      both (inr c) (inr d) = inr (d ∙ omega (arith, c))

  -- Whichever row in flight ends at each turn, when and in whatever way: after as many turns as there
  -- are rows nothing is in flight, each row was submitted exactly once or recorded before, each has its
  -- result, and every row is counted as completed.
  pub batch_ends :
      (turn : ℕ → Turn) (i : ℕ)
      → i < length rows
      → let b =
          play writable batch_id turn
            (length rows)
            (start_batch concurrency rows batch_id storage) in
        (b.in_flight ≡ [])
        × (count i b.submitted + is_settled i (adopt (recorded batch_id storage) 0 rows) ≡ 1)
        × (length (summary b).results ≡ length rows)
        × (b.completed ≡ length rows)
  batch_ends turn i l =
      let begun = start_batch concurrency rows batch_id storage in
      let (r, over) = play-Reached turn (length rows) begun Reached.started in
      let b = play writable batch_id turn (length rows) begun in
      let (_, _, s) = Reached-account concurrency writable batch_id rows storage i b r in
      let idle = none_left b s over in
      let (once, results, completed) =
        finished concurrency writable batch_id rows storage b i r idle l in
      (idle, once, results, completed)
    where
      none_left :
          (b : Batch)
          → b.completed + length b.in_flight + length b.pending ≡ length rows
          → (b.in_flight ≡ [])
            ⊎ (b.completed
                ≡ length rows + (start_batch concurrency rows batch_id storage).completed)
          → b.in_flight ≡ []
      none_left b s (inl e) = e
      none_left b s (inr c) = elim (List-cases b.in_flight) [
        | inl e ↦ e
        | inr (j, js, e) ↦
            let one : length b.in_flight ≡ suc (length js) = ap length e in
            absurd (omega (arith, s, c, one))
      ]
