-- ===== src/Queue/Dispatch.antt =====
-- Which job `JobQueue` hands out, and what a refused one becomes.
use ancore.Common.{
  ℕ, ◌+◌, ◌≤◌, ◌<◌, true, false, none, some, Text, ◌≡◌, refl, sym, subst, ap, ◌∙◌, ◌≢◌, ◌⊎◌, inl,
  inr, nat_eq, text_eq, arith, Option-cases, Bool-cases, leb, Mem, mem-filter_of, filter, least-le,
  least-eq-none, first-sort, ==_iff,
}
use ancore.Common.Table
use ancore.Common.Table.Distinct.{mem-values_of_get}
use ancore.Queue.Types.{Job, EnqueueOptions, pending, dead, is_pending, is_dead, is_terminal}
use ancore.Queue.Backoff.{Random, next_retry_after, next_retry_after_bounds, default_cap_ms}
use ancore.Queue.JobQueue.{
  JobQueue, empty, new_job, insert_job, find_active, enqueue, update, candidate, is_eligible,
  dequeue, to_processing, to_dead, to_retry, nack,
}
use ancore.Queue.Invariant.{Inv, candidate_lem}
use ancore.Queue.Steps.{get-update, Steps, Steps-Inv, empty-Inv}

module _ {P : Type 0} where
  mem-eligible :
      (now : ℕ) (q : JobQueue P) (id : ℕ) (b : Job P)
      → Table.get id q.jobs ≡ some b
      → is_eligible now b ≡ true
      → Mem b (filter (is_eligible now) (Table.values q.jobs))
  mem-eligible now q id b e ok =
      mem-filter_of (is_eligible now) (Table.values q.jobs) b (mem-values_of_get id b q.jobs e) ok

  candidate-le :
      (now : ℕ) (q : JobQueue P) (c : Job P) (id : ℕ) (b : Job P)
      → candidate now q ≡ some c
      → Table.get id q.jobs ≡ some b
      → is_eligible now b ≡ true
      → c.created_at ≤ b.created_at
  unfolding candidate
  candidate-le now q c id b h e ok =
      least-le (λ j. j.created_at) _ b (sym (first-sort _ _) ∙ h) (mem-eligible now q id b e ok)

  candidate-none :
      (now : ℕ) (q : JobQueue P) (id : ℕ) (b : Job P)
      → candidate now q ≡ none
      → Table.get id q.jobs ≡ some b
      → is_eligible now b ≢ true
  unfolding candidate
  candidate-none now q id b h e ok =
      elim (subst (Mem b) (least-eq-none (λ j. j.created_at) _ (sym (first-sort _ _) ∙ h))
        (mem-eligible now q id b e ok)) [ ]

  -- The job that `dequeue` hands out was stored and eligible, is now stored as processing, and no
  -- eligible job was created before it.
  pub dequeue_oldest :
      (now stamp : ℕ) (q : JobQueue P) (j : Job P)
      → Inv q
      → (dequeue now stamp q).0 ≡ some j
      → (c : Job P) × (Table.get c.id q.jobs ≡ some c)
        × (is_eligible now c ≡ true)
        × (j ≡ to_processing stamp c)
        × (Table.get c.id (dequeue now stamp q).1.jobs ≡ some j)
        × ((id : ℕ) (b : Job P)
            → Table.get id q.jobs ≡ some b
            → is_eligible now b ≡ true
            → c.created_at ≤ b.created_at)
  unfolding dequeue
  dequeue_oldest now stamp q j v h = elim (Option-cases (candidate now q)) [
    | inl e ↦ ground arith
    | inr (c, e) ↦
        let (stored, ok) = candidate_lem now q c v e in
        let after = get-update c.id c.id (to_processing stamp) q stored in
        (
          c,
          stored,
          ok,
          ground (arith, after, ==_iff c.id c.id),
          ground (arith, after, ==_iff c.id c.id),
          λ id b f t. candidate-le now q c id b e f t,
        )
  ]

  -- `dequeue` hands out nothing exactly when no stored job is eligible; it then changes nothing.
  pub dequeue_idle :
      (now stamp : ℕ) (q : JobQueue P)
      → Inv q
      → (dequeue now stamp q).0 ≡ none
      → ((dequeue now stamp q).1 ≡ q)
        × ((id : ℕ) (b : Job P) → Table.get id q.jobs ≡ some b → is_eligible now b ≢ true)
  unfolding dequeue
  dequeue_idle now stamp q v h = elim (Option-cases (candidate now q)) [
    | inl e ↦ (ground arith, λ id b f. candidate-none now q id b e f)
    | inr (c, e) ↦ absurd (
        ground (
          arith,
          candidate_lem now q c v e,
          get-update c.id c.id (to_processing stamp) q (candidate_lem now q c v e).0,
          ==_iff c.id c.id,
        ))
  ]

  enqueue-found :
      (p : EnqueueOptions P) (id now : ℕ) (q : JobQueue P) (j : Job P)
      → find_active p.idempotency_key q ≡ some j
      → enqueue p id now q ≡ (j, q)
  unfolding enqueue
  enqueue-found p id now q j e = rw (e, enqueue)

  find_active-insert_job :
      (o : EnqueueOptions P) (id now : ℕ) (q : JobQueue P)
      → find_active o.idempotency_key (insert_job (new_job o id now) q) ≡ some (new_job o id now)
  unfolding find_active insert_job new_job
  find_active-insert_job o id now q =
      rw (Table.get-set_self o.idempotency_key id q.idempotency_index)
        (rw (Table.get-set_self id (new_job o id now) q.jobs))

  find_active-enqueue :
      (o : EnqueueOptions P) (id now : ℕ) (q : JobQueue P)
      → find_active o.idempotency_key (enqueue o id now q).1 ≡ some (enqueue o id now q).0
  unfolding enqueue
  find_active-enqueue o id now q = elim (Option-cases (find_active o.idempotency_key q)) [
    | inl e ↦ rw (e, enqueue) (find_active-insert_job o id now q)
    | inr (j, e) ↦ rw (e, enqueue) e
  ]

  -- A second `enqueue` of a key, before its job ends, returns that job and changes nothing.
  pub enqueue_twice :
      (o p : EnqueueOptions P) (id now id' later : ℕ) (q : JobQueue P)
      → p.idempotency_key ≡ o.idempotency_key
      → enqueue p id' later (enqueue o id now q).1
        ≡ ((enqueue o id now q).0, (enqueue o id now q).1)
  enqueue_twice o p id now id' later q same =
      enqueue-found p id' later (enqueue o id now q).1 (enqueue o id now q).0
        (ap (λ k. find_active k (enqueue o id now q).1) same ∙ find_active-enqueue o id now q)

  -- A refused job has one more attempt. If it has reached its limit it is dead; otherwise it waits,
  -- for less than a minute.
  pub nack_lem :
      (id : ℕ) (error : Text) (random : Random) (now stamp : ℕ) (q : JobQueue P) (j : Job P)
      → Table.get id q.jobs ≡ some j
      → (k : Job P) × (Table.get id (nack id error random now stamp q).jobs ≡ some k)
        × (k.attempts ≡ j.attempts + 1)
        × (k.last_error ≡ some error)
        × (((j.max_attempts ≤ j.attempts + 1) × (k.status ≡ dead))
            ⊎ ((j.attempts + 1 < j.max_attempts)
                × (k.status ≡ pending)
                × ((t : ℕ) × (k.retry_after ≡ some t) × (now ≤ t) × (t < now + default_cap_ms))))
  unfolding nack
  nack_lem id error random now stamp q j e =
      elim (Bool-cases (leb j.max_attempts (j.attempts + 1))) [
        | inl last ↦
            let patch = to_dead {P = P} (j.attempts + 1) error stamp in
            rw (e, nack, last)
              (
                patch j,
                ground (arith, get-update id id patch q e, ==_iff id id),
                refl,
                refl,
                inl (ground arith, refl),
              )
        | inr more ↦
            let at = next_retry_after random (j.attempts + 1) now in
            let patch = to_retry {P = P} (j.attempts + 1) error at stamp in
            let (from, to, _) = next_retry_after_bounds random (j.attempts + 1) now in
            rw (e, nack, more)
              (
                patch j,
                ground (arith, get-update id id patch q e, ==_iff id id),
                refl,
                refl,
                inr (ground arith, refl, (at, refl, from, to)),
              )
      ]

  -- In a queue that calls have built from the empty one, an open job that was tried has attempts
  -- left, and a dead one has used them up.
  pub attempts_budget :
      {q : JobQueue P} (id : ℕ) (j : Job P)
      → Steps empty q
      → Table.get id q.jobs ≡ some j
      → (is_terminal j.status ≡ false → (j.attempts < j.max_attempts) ⊎ (j.attempts ≡ 0))
        × (is_dead j.status ≡ true → j.max_attempts ≤ j.attempts)
  attempts_budget {q} id j s e =
      let i = (Steps-Inv s empty-Inv).each id j e in (i.attempts_left, i.dead_exhausted)

  -- What `dequeue` does to the queue when it hands out a job.
  pub dequeue-update :
      (now stamp : ℕ) (q : JobQueue P) (j : Job P)
      → Inv q
      → (dequeue now stamp q).0 ≡ some j
      → (c : Job P) × (Table.get c.id q.jobs ≡ some c)
        × (is_pending c.status ≡ true)
        × (j ≡ to_processing stamp c)
        × ((dequeue now stamp q).1 ≡ update c.id (to_processing stamp) q)
  unfolding dequeue
  dequeue-update now stamp q j v h = elim (Option-cases (candidate now q)) [
    | inl e ↦ ground arith
    | inr (c, e) ↦
        let (stored, ok) = candidate_lem now q c v e in
        let after = get-update c.id c.id (to_processing stamp) q stored in
        (c, stored, ground arith, ground (arith, after, ==_iff c.id c.id), ground arith)
  ]
