-- ===== src/Queue/JobQueue.antt =====
-- services/relayer/src/queue/JobQueue.ts, the queue in memory. What `randomUUID`, the clock and
-- `Math.random` return is an argument of each method.
use ancore.Common.{
  ℕ, ◌+◌, Bool, true, ◌&&◌, Option, none, some, get_or, List, [], ◌∷◌, Text, if◌then◌else◌, leb,
  length, filter, sort, first, nat_eq, text_eq,
}
use ancore.Common.Table
use ancore.Common.Table.{Table}
use ancore.Queue.Types.{
  Job, EnqueueOptions, pending, processing, completed, dead, is_pending, is_dead, is_terminal,
}
use ancore.Queue.Backoff.{Random, next_retry_after}

abbrev pub default_max_attempts : ℕ
default_max_attempts = 5

pub record JobQueue (P : Type 0) : Type 0 where
  pub jobs : Table ℕ (Job P)
  pub idempotency_index : Table Text ℕ

-- `x ? { x } : {}` at a text: the empty text is dropped.
abbrev pub truthy : Option Text → Option Text
truthy none = none
truthy (some []) = none
truthy (some (c ∷ s)) = some (c ∷ s)

-- `existing && !this.isTerminal(existing.status)`: the job, if it is not in a terminal state.
abbrev pub active : {P : Type 0} → Option (Job P) → Option (Job P)
active none = none
active (some j) = if is_terminal j.status then none else some j

-- `this.jobs.get(id)` at what a read of the index gives.
abbrev pub fetch : {P : Type 0} → JobQueue P → Option ℕ → Option (Job P)
fetch q none = none
fetch q (some id) = Table.get id q.jobs

abbrev pub empty : {P : Type 0} → JobQueue P
empty = record { jobs = []; idempotency_index = [] }

-- `j.retryAfter && new Date(j.retryAfter) > now`, negated.
abbrev pub retry_due : Option ℕ → ℕ → Bool
retry_due none now = true
retry_due (some t) now = leb t now

module _ {P : Type 0} where
  unfoldable pub new_job : EnqueueOptions P → ℕ → ℕ → Job P
  new_job o id now = record {
    id = id;
    idempotency_key = o.idempotency_key;
    type = o.type;
    payload = o.payload;
    request_id = truthy o.request_id;
    status = pending;
    attempts = 0;
    max_attempts = get_or o.max_attempts default_max_attempts;
    created_at = now;
    updated_at = now;
    retry_after = none;
    last_error = none;
  }

  unfoldable pub insert_job : Job P → JobQueue P → JobQueue P
  insert_job j q = record {
    jobs = Table.set j.id j q.jobs;
    idempotency_index = Table.set j.idempotency_key j.id q.idempotency_index;
  }

  -- The job that holds an idempotency key, if it has not ended.
  unfoldable pub find_active : Text → JobQueue P → Option (Job P)
  find_active key q = active (fetch q (Table.get key q.idempotency_index))

  unfoldable pub enqueue : EnqueueOptions P → ℕ → ℕ → JobQueue P → Job P × JobQueue P
  enqueue o id now q = elim (find_active o.idempotency_key q) [
    | some existing ↦ (existing, q)
    | none ↦ (new_job o id now, insert_job (new_job o id now) q)
  ]

  -- `update(id, patch)`; the patch is a function.
  unfoldable pub update : ℕ → (Job P → Job P) → JobQueue P → JobQueue P
  update id patch q = elim (Table.get id q.jobs) [
    | none ↦ q
    | some j ↦ record q { jobs = Table.set id (patch j) q.jobs }
  ]

  abbrev pub is_eligible : ℕ → Job P → Bool
  is_eligible now j = is_pending j.status && retry_due j.retry_after now

  unfoldable pub candidate : ℕ → JobQueue P → Option (Job P)
  candidate now q =
      first (sort (λ j. j.created_at) (filter (is_eligible now) (Table.values q.jobs)))

  abbrev pub to_processing : ℕ → Job P → Job P
  to_processing stamp j = record j { status = processing; updated_at = stamp }

  -- The clock is read twice: `now` for the test, and `stamp` for `updatedAt`. The result is the job
  -- as it is stored after the update, to which `ack` and `nack` of the result are bound.
  unfoldable pub dequeue : ℕ → ℕ → JobQueue P → Option (Job P) × JobQueue P
  dequeue now stamp q = elim (candidate now q) [
    | none ↦ (none, q)
    | some c ↦ let q' = update c.id (to_processing stamp) q in (Table.get c.id q'.jobs, q')
  ]

  unfoldable pub ack : ℕ → ℕ → JobQueue P → JobQueue P
  ack id stamp q = update id (λ j. record j { status = completed; updated_at = stamp }) q

  abbrev pub to_dead : ℕ → Text → ℕ → Job P → Job P
  to_dead attempts error stamp j = record j {
    status = dead;
    attempts = attempts;
    last_error = some error;
    updated_at = stamp;
  }

  abbrev pub to_retry : ℕ → Text → ℕ → ℕ → Job P → Job P
  to_retry attempts error retry_at stamp j = record j {
    status = pending;
    attempts = attempts;
    last_error = some error;
    retry_after = some retry_at;
    updated_at = stamp;
  }

  unfoldable pub nack : ℕ → Text → Random → ℕ → ℕ → JobQueue P → JobQueue P
  nack id error random now stamp q = elim (Table.get id q.jobs) [
    | none ↦ q
    | some j ↦
        let attempts = j.attempts + 1 in
        if leb j.max_attempts attempts
        then update id (to_dead attempts error stamp) q
        else update id (to_retry attempts error (next_retry_after random attempts now) stamp) q
  ]

  unfoldable pub get_by_id : ℕ → JobQueue P → Option (Job P)
  get_by_id id q = Table.get id q.jobs

  unfoldable pub get_by_idempotency_key : Text → JobQueue P → Option (Job P)
  get_by_idempotency_key key q = fetch q (Table.get key q.idempotency_index)

  unfoldable pub get_dead_letter_jobs : JobQueue P → List (Job P)
  get_dead_letter_jobs q = filter (λ j. is_dead j.status) (Table.values q.jobs)

  unfoldable pub size : JobQueue P → ℕ
  size q = length q.jobs
