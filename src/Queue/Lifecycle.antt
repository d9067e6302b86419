-- ===== src/Queue/Lifecycle.antt =====
-- What becomes of a job under any calls of `JobQueue`, services/relayer/src/queue/JobQueue.ts.
use ancore.Common.{
  ℕ, ◌+◌, ◌≤◌, true, false, none, some, Text, ◌≡◌, refl, sym, subst, ap, ◌∙◌, ◌⊎◌, inl, inr, nat_eq,
  text_eq, arith, Option-cases, Bool-cases, leb, ◌==◌, ==_iff,
}
use ancore.Common.Table
use ancore.Queue.Types.{Job, EnqueueOptions, pending, processing, completed, dead, is_terminal}
use ancore.Queue.Backoff.{Random}
use ancore.Queue.JobQueue.{
  JobQueue, new_job, insert_job, find_active, enqueue, update, candidate, is_eligible, dequeue,
  to_processing, to_dead, ack, nack,
}
use ancore.Queue.Invariant.{Inv, candidate_lem}
use ancore.Queue.Steps.{
  enqueues, dequeues, acks, nacks, Edge, succeed, retry, bury, edge, get-update, Step,
}

module _ {P : Type 0} where
  -- How a stored job may change in one call: not at all, or along one edge, with its identity and
  -- its limit kept and at most one more attempt.
  pub record Moves (i j : Job P) : Type 0 where
    pub status : (j.status ≡ i.status) ⊎ Edge i.status j.status
    pub same_key : j.idempotency_key ≡ i.idempotency_key
    pub same_limit : j.max_attempts ≡ i.max_attempts
    pub attempts_grow : (i.attempts ≤ j.attempts) × (j.attempts ≤ i.attempts + 1)

  Moves-refl : (i : Job P) → Moves i i
  Moves-refl i = record {
    status = inl refl;
    same_key = refl;
    same_limit = refl;
    attempts_grow = omega arith;
  }

  update-Moves :
      (id : ℕ) (patch : Job P → Job P) (q : JobQueue P) (i : ℕ) (c j : Job P)
      → Table.get id q.jobs ≡ some c
      → Moves c (patch c)
      → Table.get i q.jobs ≡ some j
      → (k : Job P) × (Table.get i (update id patch q).jobs ≡ some k) × Moves j k
  update-Moves id patch q i c j e m f = elim (Bool-cases (id == i)) [
    | inl same ↦
        let at : c ≡ j =
          ground (arith, ==_iff id i, ap (λ n. Table.get n q.jobs) ((==_iff id i).0 same)) in
        (patch c, ground (arith, get-update i id patch q e), subst (λ x. Moves x (patch c)) at m)
    | inr other ↦ (j, ground (arith, get-update i id patch q e), Moves-refl j)
  ]

  -- `enqueue` under a fresh id leaves the other jobs as they are.
  pub enqueue-Moves :
      (o : EnqueueOptions P) (id now : ℕ) (q : JobQueue P) (i : ℕ) (j : Job P)
      → Table.get id q.jobs ≡ none
      → Table.get i q.jobs ≡ some j
      → Table.get i (enqueue o id now q).1.jobs ≡ some j
  unfolding enqueue insert_job new_job
  enqueue-Moves o id now q i j f e = elim (Option-cases (find_active o.idempotency_key q)) [
    | inr (c, h) ↦ rw (h, enqueue) e
    | inl h ↦
        rw (h, enqueue)
          (Table.get-set_ne i id (new_job o id now) q.jobs
              (λ same. ground (arith, sym f ∙ ap (λ n. Table.get n q.jobs) same ∙ e))
            ∙ e)
  ]

  dequeue-Moves :
      (now stamp : ℕ) (q : JobQueue P) (i : ℕ) (j : Job P)
      → Inv q
      → Table.get i q.jobs ≡ some j
      → (k : Job P) × (Table.get i (dequeue now stamp q).1.jobs ≡ some k) × Moves j k
  unfolding dequeue
  dequeue-Moves now stamp q i j v e = elim (Option-cases (candidate now q)) [
    | inl c ↦ rw (c, dequeue) (j, e, Moves-refl j)
    | inr (c, h) ↦
        let (stored, ok) = candidate_lem now q c v h in
        rw (h, dequeue) (update-Moves c.id (to_processing stamp) q i c j stored (taken c ok) e)
  ]
    where
      taken : (c : Job P) → is_eligible now c ≡ true → Moves c (to_processing stamp c)
      taken c ok = record {
        status = inr (edge c.status (ground arith));
        same_key = refl;
        same_limit = refl;
        attempts_grow = omega arith;
      }

  nack-Moves :
      (id : ℕ) (error : Text) (random : Random) (now stamp : ℕ) (q : JobQueue P) (i : ℕ)
      (c j : Job P)
      → Table.get id q.jobs ≡ some c
      → c.status ≡ processing
      → Table.get i q.jobs ≡ some j
      → (k : Job P) × (Table.get i (nack id error random now stamp q).jobs ≡ some k) × Moves j k
  unfolding nack
  nack-Moves id error random now stamp q i c j h p e =
      elim (Bool-cases (leb c.max_attempts (c.attempts + 1))) [
        | inl last ↦
            rw (h, nack, last)
              (update-Moves id (to_dead (c.attempts + 1) error stamp) q i c j h
                (record {
                  status = inr (subst (λ s. Edge s dead) (sym p) bury);
                  same_key = refl;
                  same_limit = refl;
                  attempts_grow = omega arith;
                })
                e)
        | inr more ↦
            rw (h, nack, more)
              (update-Moves id _ q i c j h
                (record {
                  status = inr (subst (λ s. Edge s pending) (sym p) retry);
                  same_key = refl;
                  same_limit = refl;
                  attempts_grow = omega arith;
                })
                e)
      ]

  -- A stored job is never lost: after a step it is there and has moved along the diagram.
  pub Step-Moves :
      {q r : JobQueue P} (i : ℕ) (j : Job P)
      → Inv q
      → Step q r
      → Table.get i q.jobs ≡ some j
      → (k : Job P) × (Table.get i r.jobs ≡ some k) × Moves j k
  unfolding ack
  Step-Moves {q} i j v (enqueues o id now f) e = (j, enqueue-Moves o id now q i j f e, Moves-refl j)
  Step-Moves {q} i j v (dequeues now stamp) e = dequeue-Moves now stamp q i j v e
  Step-Moves {q} i j v (acks id stamp c h p) e =
      update-Moves id _ q i c j h
        (record {
          status = inr (subst (λ s. Edge s completed) (sym p) succeed);
          same_key = refl;
          same_limit = refl;
          attempts_grow = omega arith;
        })
        e
  Step-Moves {q} i j v (nacks id error random now stamp c h p) e =
      nack-Moves id error random now stamp q i c j h p e

  update-other :
      (i id : ℕ) (patch : Job P → Job P) (q : JobQueue P) (c j : Job P)
      → Table.get id q.jobs ≡ some c
      → is_terminal c.status ≡ false
      → Table.get i q.jobs ≡ some j
      → is_terminal j.status ≡ true
      → Table.get i (update id patch q).jobs ≡ some j
  update-other i id patch q c j e open_ f t =
      ground (arith, get-update i id patch q e, ==_iff id i, ap (λ n. Table.get n q.jobs))

  -- A step does not change a job that has ended.
  pub Step-ended :
      {q r : JobQueue P} (i : ℕ) (j : Job P)
      → Inv q
      → Step q r
      → Table.get i q.jobs ≡ some j
      → is_terminal j.status ≡ true
      → Table.get i r.jobs ≡ some j
  unfolding ack dequeue nack
  Step-ended {q} i j v (enqueues o id now f) e t = enqueue-Moves o id now q i j f e
  Step-ended {q} i j v (dequeues now stamp) e t = elim (Option-cases (candidate now q)) [
    | inl c ↦ rw (c, dequeue) e
    | inr (c, h) ↦
        let (stored, ok) = candidate_lem now q c v h in
        rw (h, dequeue)
          (update-other i c.id (to_processing stamp) q c j stored (ground (arith, ok)) e t)
  ]
  Step-ended {q} i j v (acks id stamp c h p) e t =
      update-other i id _ q c j h (ground (arith, p)) e t
  Step-ended {q} i j v (nacks id error random now stamp c h p) e t =
      elim (Bool-cases (leb c.max_attempts (c.attempts + 1))) [
        | inl last ↦ rw (h, nack, last) (update-other i id _ q c j h (ground (arith, p)) e t)
        | inr more ↦ rw (h, nack, more) (update-other i id _ q c j h (ground (arith, p)) e t)
      ]
