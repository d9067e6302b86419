-- ===== src/Worker/Turns.antt =====
-- The worker of services/relayer/src/workers/QueueWorker.ts and its clients, one turn of the event
-- loop after another.
use ancore.Common.{
  ℕ, zero, suc, ◌-◌, ◌≤◌, Bool, none, List, [], ◌∷◌, Text, ◌≡◌, refl, ap, inl, inr, nat_eq, arith,
  Bool-cases, length, ==_iff,
}
use ancore.Common.Table
use ancore.Queue.Types.{Job, JobType, EnqueueOptions}
use ancore.Queue.JobQueue.{enqueue, empty}
use ancore.Queue.Invariant.{enqueue-Inv}
use ancore.Queue.Steps.{empty-Inv}
use ancore.Worker.QueueWorker.{
  QueueWorker, Ending, new_worker, start, stop, poll, settle, find, finish, conclude,
}
use ancore.Worker.InFlight.{enqueue-Held}
use ancore.Worker.Invariant.{WorkerInv, poll-Inv, settle-Inv, new_worker-Inv}

-- A client enqueues, the worker is started or stopped, polls, or ends a job.
pub data Turn (P : Type 0) : Type 0 where
  enqueues : EnqueueOptions P → ℕ → ℕ → Turn P
  starts stops : Turn P
  polls : ℕ → (ℕ → ℕ × ℕ) → Turn P
  settles : ℕ → Ending → Turn P

module _ {P : Type 0} where
  abbrev pub enqueue_for : EnqueueOptions P → ℕ → ℕ → QueueWorker P → QueueWorker P
  enqueue_for o id now w = record w { queue = (enqueue o id now w.queue).1 }

  unfoldable pub turn : (JobType → Bool) → (JobType → Text) → Turn P → QueueWorker P → QueueWorker P
  turn registered no_handler (enqueues o id now) w = enqueue_for o id now w
  turn registered no_handler starts w = start w
  turn registered no_handler stops w = stop w
  turn registered no_handler (polls fuel clock) w = poll fuel clock w
  turn registered no_handler (settles id e) w = settle registered no_handler id e w

  -- An id that `enqueue` is given is fresh.
  abbrev pub IsFresh : Turn P → QueueWorker P → Type 0
  IsFresh (enqueues o id now) w = Table.get id w.queue.jobs ≡ none
  IsFresh _ w = Unit {0}

  -- `running` has no part in the invariant.
  kept : {b : Bool} {w : QueueWorker P} → WorkerInv w → WorkerInv (record w { running = b })
  kept v = record {
    queue_inv = v.queue_inv;
    held = v.held;
    counted = v.counted;
    bounded = v.bounded;
    balanced = v.balanced;
    buried = v.buried;
  }

  -- Every turn keeps the invariant.
  pub turn-Inv :
      (registered : JobType → Bool) (no_handler : JobType → Text) (t : Turn P) (w : QueueWorker P)
      → WorkerInv w
      → IsFresh t w
      → WorkerInv (turn registered no_handler t w)
  unfolding turn start stop
  turn-Inv registered no_handler (enqueues o id now) w v f = record {
    queue_inv = enqueue-Inv o id now w.queue v.queue_inv;
    held = enqueue-Held o id now w.queue w.in_flight f v.held;
    counted = v.counted;
    bounded = v.bounded;
    balanced = v.balanced;
    buried = v.buried;
  }
  turn-Inv registered no_handler starts w v f = elim (Bool-cases w.running) [
    | inl on ↦ simp on v
    | inr off ↦ simp off (kept v)
  ]
  turn-Inv registered no_handler stops w v f = kept v
  turn-Inv registered no_handler (polls fuel clock) w v f = poll-Inv fuel clock w v
  turn-Inv registered no_handler (settles id e) w v f = settle-Inv registered no_handler id e w v

  -- The states of a worker that was made over an empty queue.
  pub data Run (registered : JobType → Bool) (no_handler : JobType → Text) (concurrency : ℕ)
      : QueueWorker P → Type 0 where
    made : Run registered no_handler concurrency (new_worker empty concurrency)
    next :
        {w : QueueWorker P} (t : Turn P)
        → Run registered no_handler concurrency w
        → IsFresh t w
        → Run registered no_handler concurrency (turn registered no_handler t w)

  -- Whatever its clients, its handlers and the clock do, the worker keeps its invariant.
  pub Run-Inv :
      (registered : JobType → Bool) (no_handler : JobType → Text) (concurrency : ℕ)
      (w : QueueWorker P)
      → Run registered no_handler concurrency w
      → WorkerInv w
  Run-Inv registered no_handler concurrency w made = new_worker-Inv empty concurrency empty-Inv
  Run-Inv registered no_handler concurrency w (next {w = u} t r f) =
      turn-Inv registered no_handler t u (Run-Inv registered no_handler concurrency u r) f

  -- A job in flight ends: here the one that began last.
  unfoldable pub settle_one :
      (JobType → Bool) → (JobType → Text) → Ending → QueueWorker P → QueueWorker P
  settle_one registered no_handler e w = elim w.in_flight [
    | [] ↦ w
    | j ∷ js ↦ settle registered no_handler j.id e w
  ]

  unfoldable pub settle_all :
      (JobType → Bool) → (JobType → Text) → List Ending → QueueWorker P → QueueWorker P
  settle_all registered no_handler [] w = w
  settle_all registered no_handler (e ∷ es) w =
      settle_all registered no_handler es (settle_one registered no_handler e w)

  finish-active :
      (registered : JobType → Bool) (no_handler : JobType → Text) (j : Job P) (e : Ending)
      (w : QueueWorker P)
      → (finish registered no_handler j e w).active_jobs ≡ w.active_jobs - 1
  unfolding finish conclude
  finish-active registered no_handler j e w = ground arith

  settle_one-active :
      (registered : JobType → Bool) (no_handler : JobType → Text) (e : Ending) (w : QueueWorker P)
      (js : List (Job P))
      → w.in_flight ≡ js
      → WorkerInv w
      → (settle_one registered no_handler e w).active_jobs ≡ w.active_jobs - 1
  unfolding settle_one settle find
  settle_one-active registered no_handler e w [] h v =
      rw (h, settle_one) (omega (arith, v.counted, ap length h))
  settle_one-active registered no_handler e w (j ∷ js) h v =
      rw (h, settle_one, h, settle)
        (rw ((==_iff j.id j.id).1 refl, settle) (finish-active registered no_handler j e _))

  settle_one-Inv :
      (registered : JobType → Bool) (no_handler : JobType → Text) (e : Ending) (w : QueueWorker P)
      (js : List (Job P))
      → w.in_flight ≡ js
      → WorkerInv w
      → WorkerInv (settle_one registered no_handler e w)
  unfolding settle_one
  settle_one-Inv registered no_handler e w [] h v = rw (h, settle_one) v
  settle_one-Inv registered no_handler e w (j ∷ js) h v =
      rw (h, settle_one) (settle-Inv registered no_handler j.id e w v)

  -- Once each job in flight has ended, however it did, none is active: what a `stop` waits for.
  pub settle_all-idle :
      (registered : JobType → Bool) (no_handler : JobType → Text) (es : List Ending)
      (w : QueueWorker P)
      → WorkerInv w
      → w.active_jobs ≤ length es
      → (settle_all registered no_handler es w).active_jobs ≡ 0
  unfolding settle_all
  settle_all-idle registered no_handler [] w v h = omega arith
  settle_all-idle registered no_handler (e ∷ es) w v h =
      settle_all-idle registered no_handler es (settle_one registered no_handler e w)
        (settle_one-Inv registered no_handler e w w.in_flight refl v)
        (omega (arith, settle_one-active registered no_handler e w w.in_flight refl v))

  -- A poll of a stopped worker takes no job.
  pub poll-stop :
      (fuel : ℕ) (clock : ℕ → ℕ × ℕ) (w : QueueWorker P) → poll fuel clock (stop w) ≡ stop w
  unfolding poll stop
  poll-stop zero clock w = refl
  poll-stop (suc fuel) clock w = refl
