-- ===== src/Queue/Invariant.antt =====
-- What holds of `JobQueue` between two calls of its methods.
use ancore.Common.{
  ℕ, ◌+◌, ◌<◌, ◌≤◌, true, false, Option, none, some, Text, ◌≡◌, refl, sym, ap, ◌∙◌, ◌≢◌, subst, ◌⊎◌,
  inl, inr, nat_eq, text_eq, arith, Option-cases, Bool-cases, leb, mem-filter, mem-least,
  first-sort,
}
use ancore.Common.Table
use ancore.Common.Table.Distinct.{Distinct, set-Distinct, get_of_mem-values}
use ancore.Queue.Types.{Job, EnqueueOptions, is_dead, is_terminal}
use ancore.Queue.Backoff.{Random, next_retry_after}
use ancore.Queue.JobQueue.{
  JobQueue, new_job, insert_job, find_active, enqueue, update, candidate, is_eligible, dequeue,
  to_processing, to_dead, to_retry, ack, nack,
}

module _ {P : Type 0} where
  -- One stored job: it stands under its id, the index leads to it until it ends, it has attempts
  -- left while it is open, and none if it is dead.
  pub record JobInv (index : Option ℕ) (id : ℕ) (j : Job P) : Type 0 where
    pub same_id : j.id ≡ id
    pub indexed : is_terminal j.status ≡ false → index ≡ some id
    pub attempts_left :
        is_terminal j.status ≡ false → (j.attempts < j.max_attempts) ⊎ (j.attempts ≡ 0)
    pub dead_exhausted : is_dead j.status ≡ true → j.max_attempts ≤ j.attempts

  pub record Inv (q : JobQueue P) : Type 0 where
    pub distinct : Distinct q.jobs
    pub each :
        (id : ℕ) (j : Job P)
        → Table.get id q.jobs ≡ some j
        → JobInv (Table.get j.idempotency_key q.idempotency_index) id j

  -- At most one job of a key has not ended.
  pub active_unique :
      (q : JobQueue P) (a b : ℕ) (i j : Job P)
      → Inv q
      → Table.get a q.jobs ≡ some i
      → Table.get b q.jobs ≡ some j
      → i.idempotency_key ≡ j.idempotency_key
      → is_terminal i.status ≡ false
      → is_terminal j.status ≡ false
      → a ≡ b
  active_unique q a b i j v p r k s t =
      ground (arith, (v.each a i p).indexed s, (v.each b j r).indexed t)

  -- A patch of one job keeps the invariant if it keeps that of the job.
  pub update-Inv :
      (id : ℕ) (patch : Job P → Job P) (q : JobQueue P)
      → Inv q
      → ((j : Job P)
          → Table.get id q.jobs ≡ some j
          → JobInv (Table.get (patch j).idempotency_key q.idempotency_index) id (patch j))
      → Inv (update id patch q)
  unfolding update
  update-Inv id patch q v keep = elim (Option-cases (Table.get id q.jobs)) [
    | inl e ↦ rw (e, update) v
    | inr (j, e) ↦
        rw (e, update)
          record {
            distinct = set-Distinct id (patch j) q.jobs v.distinct;
            each =
                Table.set-all (λ i w. JobInv (Table.get w.idempotency_key q.idempotency_index) i w)
                  id (patch j) q.jobs v.each (keep j e);
          }
  ]

  find_active-none :
      (key : Text) (q : JobQueue P) (id : ℕ) (j : Job P)
      → Inv q
      → find_active key q ≡ none
      → Table.get id q.jobs ≡ some j
      → is_terminal j.status ≡ false
      → j.idempotency_key ≢ key
  unfolding find_active
  find_active-none key q id j v h e open_ k =
      ground (arith, (v.each id j e).indexed open_, ap (λ s. Table.get s q.idempotency_index) k)

  -- A new job under a fresh id keeps the invariant where no other job of its key is open.
  pub insert_job-Inv :
      (o : EnqueueOptions P) (id now : ℕ) (q : JobQueue P)
      → Inv q
      → find_active o.idempotency_key q ≡ none
      → Inv (insert_job (new_job o id now) q)
  unfolding insert_job new_job
  insert_job-Inv o id now q v h = record {
    distinct = set-Distinct id _ q.jobs v.distinct;
    each =
        Table.set-all
          (λ i w.
            JobInv
              (Table.get w.idempotency_key (Table.set o.idempotency_key id q.idempotency_index)) i
              w)
          id (new_job o id now) q.jobs old
          (record {
            same_id = refl;
            indexed = λ _. Table.get-set_self o.idempotency_key id q.idempotency_index;
            attempts_left = λ _. inr refl;
            dead_exhausted = λ c. cc;
          });
  }
    where
      old :
          (i : ℕ) (w : Job P)
          → Table.get i q.jobs ≡ some w
          → JobInv
              (Table.get w.idempotency_key (Table.set o.idempotency_key id q.idempotency_index))
              i
              w
      old i w e =
          let u = v.each i w e in
          record {
            same_id = u.same_id;
            indexed = λ t.
                Table.get-set_ne w.idempotency_key o.idempotency_key id q.idempotency_index
                  (λ k. find_active-none o.idempotency_key q i w v h e t (sym k))
                ∙ u.indexed t;
            attempts_left = u.attempts_left;
            dead_exhausted = u.dead_exhausted;
          }

  -- `enqueue` keeps the invariant.
  pub enqueue-Inv :
      (o : EnqueueOptions P) (id now : ℕ) (q : JobQueue P) → Inv q → Inv (enqueue o id now q).1
  unfolding enqueue
  enqueue-Inv o id now q v = elim (Option-cases (find_active o.idempotency_key q)) [
    | inl e ↦ rw (e, enqueue) (insert_job-Inv o id now q v e)
    | inr (j, e) ↦ rw (e, enqueue) v
  ]

  -- The candidate is a stored job that is eligible, and no eligible job is older.
  pub candidate_lem :
      (now : ℕ) (q : JobQueue P) (c : Job P)
      → Inv q
      → candidate now q ≡ some c
      → (Table.get c.id q.jobs ≡ some c) × (is_eligible now c ≡ true)
  unfolding candidate
  candidate_lem now q c v h =
      let found = mem-least _ _ (sym (first-sort _ _) ∙ h) in
      let (m, ok) = mem-filter (is_eligible now) (Table.values q.jobs) c found in
      let (id, e) = get_of_mem-values c q.jobs v.distinct m in
      (subst (λ i. Table.get i q.jobs ≡ some c) (sym (v.each id c e).same_id) e, ok)

  pub dequeue-Inv : (now stamp : ℕ) (q : JobQueue P) → Inv q → Inv (dequeue now stamp q).1
  unfolding dequeue
  dequeue-Inv now stamp q v = elim (Option-cases (candidate now q)) [
    | inl e ↦ rw (e, dequeue) v
    | inr (c, e) ↦
        let (here, ok) = candidate_lem now q c v e in
        rw (e, dequeue) (update-Inv c.id (to_processing stamp) q v (λ j p. take j p here ok))
  ]
    where
      take :
          {c : Job P} (j : Job P)
          → Table.get c.id q.jobs ≡ some j
          → Table.get c.id q.jobs ≡ some c
          → is_eligible now c ≡ true
          → JobInv (Table.get j.idempotency_key q.idempotency_index) c.id (to_processing stamp j)
      take {c} j p here ok = ground (arith, v.each c.id j p)

  pub ack-Inv : (id stamp : ℕ) (q : JobQueue P) → Inv q → Inv (ack id stamp q)
  unfolding ack
  ack-Inv id stamp q v = update-Inv id _ q v (λ j e. ground (arith, v.each id j e))

  -- `nack` of a job that has not ended keeps the invariant.
  pub nack-Inv :
      (id : ℕ) (error : Text) (random : Random) (now stamp : ℕ) (q : JobQueue P) (j : Job P)
      → Inv q
      → Table.get id q.jobs ≡ some j
      → is_terminal j.status ≡ false
      → Inv (nack id error random now stamp q)
  unfolding nack
  nack-Inv id error random now stamp q j v e t =
      elim (Bool-cases (leb j.max_attempts (j.attempts + 1))) [
        | inl last ↦ rw (e, nack, last) (update-Inv id _ q v (λ i h. buried i h last))
        | inr more ↦ rw (e, nack, more) (update-Inv id _ q v (λ i h. retried i h more))
      ]
    where
      buried :
          (i : Job P)
          → Table.get id q.jobs ≡ some i
          → leb j.max_attempts (j.attempts + 1) ≡ true
          → JobInv
              (Table.get i.idempotency_key q.idempotency_index)
              id
              (to_dead (j.attempts + 1) error stamp i)
      buried i h last = ground (arith, v.each id i h)

      retried :
          (i : Job P)
          → Table.get id q.jobs ≡ some i
          → leb j.max_attempts (j.attempts + 1) ≡ false
          → JobInv (Table.get i.idempotency_key q.idempotency_index) id (
              to_retry
                (j.attempts + 1)
                error
                (next_retry_after random (j.attempts + 1) now)
                stamp
                i)
      retried i h more = ground (arith, v.each id i h)
