-- ===== src/Worker/InFlight.antt =====
-- The jobs in flight: each is stored as processing, and none is there twice.
use ancore.Common.{
  ℕ, suc, ◌+◌, Bool, true, false, ◌&&◌, not, none, some, List, [], ◌∷◌, Text, ◌≡◌, refl, sym, ap,
  ◌∙◌, subst, inl, inr, nat_eq, arith, Bool-cases, length, ◌==◌, ==_iff, leb,
}
use ancore.Common.Table
use ancore.Queue.Types.{Job, EnqueueOptions, processing, is_pending}
use ancore.Queue.JobQueue.{JobQueue, update, enqueue, to_processing, ack, nack}
use ancore.Queue.Backoff.{Random}
use ancore.Queue.Lifecycle.{enqueue-Moves}
use ancore.Queue.Steps.{get-update}
use ancore.Worker.QueueWorker.{find, remove}

module _ {P : Type 0} where
  abbrev pub absent : ℕ → List (Job P) → Bool
  absent id [] = true
  absent id (j ∷ js) = not (j.id == id) && absent id js

  abbrev pub IsProcessing : ℕ → JobQueue P → Type 0
  IsProcessing id q = (c : Job P) × (Table.get id q.jobs ≡ some c) × (c.status ≡ processing)

  abbrev pub Held : JobQueue P → List (Job P) → Type 0
  Held q [] = Unit
  Held q (j ∷ js) = IsProcessing j.id q × (absent j.id js ≡ true) × Held q js

  update-IsProcessing :
      (i id : ℕ) (patch : Job P → Job P) (q : JobQueue P) {c : Job P}
      → Table.get id q.jobs ≡ some c
      → (i == id) ≡ false
      → IsProcessing i q
      → IsProcessing i (update id patch q)
  update-IsProcessing i id patch q e ne (d, h, p) =
      (d, ground (arith, get-update i id patch q e), p)

  pub update-Held :
      (id : ℕ) (patch : Job P → Job P) (q : JobQueue P) {c : Job P} (js : List (Job P))
      → Table.get id q.jobs ≡ some c
      → absent id js ≡ true
      → Held q js
      → Held (update id patch q) js
  update-Held id patch q [] e a h = tt
  update-Held id patch q (j ∷ js) e a h = (
    update-IsProcessing j.id id patch q e (ground arith) h.0,
    h.1,
    update-Held id patch q js e (ground arith) h.2,
  )

  -- A job that waits is not in flight.
  pub absent_of_pending :
      (c : Job P) (q : JobQueue P) (js : List (Job P))
      → Table.get c.id q.jobs ≡ some c
      → is_pending c.status ≡ true
      → Held q js
      → absent c.id js ≡ true
  absent_of_pending c q [] e p h = refl
  absent_of_pending c q (j ∷ js) e p (r, a, h) = elim (Bool-cases (j.id == c.id)) [
    | inr ne ↦ ground (arith, absent_of_pending c q js e p h)
    | inl eq ↦ absurd (clash r ((==_iff j.id c.id).0 eq))
  ]
    where
      clash : IsProcessing j.id q → j.id ≡ c.id → ⊥
      clash (d, f, s) same = ground (arith, sym f ∙ ap (λ n. Table.get n q.jobs) same ∙ e)

  absent-remove :
      (i id : ℕ) (js : List (Job P)) → absent i js ≡ true → absent i (remove id js) ≡ true
  unfolding remove
  absent-remove i id [] a = refl
  absent-remove i id (j ∷ js) a = ground (arith, absent-remove i id js)

  pub remove-Held :
      (id : ℕ) (q : JobQueue P) (js : List (Job P)) → Held q js → Held q (remove id js)
  unfolding remove
  remove-Held id q [] h = tt
  remove-Held id q (j ∷ js) h = elim (Bool-cases (j.id == id)) [
    | inl e ↦ rw e h.2
    | inr e ↦ rw e (h.0, absent-remove j.id id js h.1, remove-Held id q js h.2)
  ]

  -- What `find` finds is stored as processing, and is not in flight once it is removed.
  pub find_lem :
      (id : ℕ) (q : JobQueue P) (js : List (Job P)) (j : Job P)
      → Held q js
      → find id js ≡ some j
      → (j.id ≡ id)
        × IsProcessing id q
        × (absent id (remove id js) ≡ true)
        × (length js ≡ suc (length (remove id js)))
  unfolding find remove
  find_lem id q [] j h e = cc
  find_lem id q (x ∷ js) j (r, a, h) e = elim (Bool-cases (x.id == id)) [
    | inl same ↦
        let at : x.id ≡ id = (==_iff x.id id).0 same in
        rw same (
          ground arith,
          subst (λ i. IsProcessing i q) at r,
          subst (λ i. absent i js ≡ true) at a,
          refl,
        )
    | inr other ↦
        let (k, s, b, l) = find_lem id q js j h (ground arith) in
        rw other (k, s, ground arith, ground arith)
  ]

  pub enqueue-Held :
      (o : EnqueueOptions P) (id now : ℕ) (q : JobQueue P) (js : List (Job P))
      → Table.get id q.jobs ≡ none
      → Held q js
      → Held (enqueue o id now q).1 js
  enqueue-Held o id now q [] f h = tt
  enqueue-Held o id now q (j ∷ js) f ((c, e, p), a, h) =
      ((c, enqueue-Moves o id now q j.id c f e, p), a, enqueue-Held o id now q js f h)

  -- The job that `dequeue` takes joins those in flight.
  pub take-Held :
      (stamp : ℕ) (c : Job P) (q : JobQueue P) (js : List (Job P))
      → Table.get c.id q.jobs ≡ some c
      → is_pending c.status ≡ true
      → Held q js
      → Held (update c.id (to_processing stamp) q) (to_processing stamp c ∷ js)
  take-Held stamp c q js e p h =
      let out = absent_of_pending c q js e p h in
      let after = get-update c.id c.id (to_processing stamp) q e in
      (
        (to_processing stamp c, ground (arith, after, ==_iff c.id c.id), refl),
        out,
        update-Held c.id (to_processing stamp) q js e out h,
      )

  pub ack-Held :
      (id stamp : ℕ) (q : JobQueue P) (js : List (Job P))
      → IsProcessing id q
      → absent id js ≡ true
      → Held q js
      → Held (ack id stamp q) js
  unfolding ack
  ack-Held id stamp q js (c, e, p) a h = update-Held id _ q js e a h

  pub nack-Held :
      (id : ℕ) (error : Text) (random : Random) (now stamp : ℕ) (q : JobQueue P) (js : List (Job P))
      → IsProcessing id q
      → absent id js ≡ true
      → Held q js
      → Held (nack id error random now stamp q) js
  unfolding nack
  nack-Held id error random now stamp q js (c, e, p) a h =
      elim (Bool-cases (leb c.max_attempts (c.attempts + 1))) [
        | inl last ↦ rw (e, nack, last) (update-Held id _ q js e a h)
        | inr more ↦ rw (e, nack, more) (update-Held id _ q js e a h)
      ]
