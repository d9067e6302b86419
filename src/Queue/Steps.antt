-- ===== src/Queue/Steps.antt =====
-- The calls of `JobQueue`, services/relayer/src/queue/JobQueue.ts, as steps. `ack` and `nack` have no
-- test of their own: here they are called for a job that is being processed, which `Handles` shows of
-- callers that settle each job they were handed once.
use ancore.Common.{ℕ, true, none, some, Text, ◌≡◌, nat_eq, text_eq, arith, if◌then◌else◌, ◌==◌}
use ancore.Common.Table
use ancore.Queue.Types.{
  Job, EnqueueOptions, JobStatus, pending, processing, completed, failed, dead, is_pending,
  is_terminal,
}
use ancore.Queue.Backoff.{Random}
use ancore.Queue.JobQueue.{JobQueue, empty, enqueue, update, dequeue, ack, nack}
use ancore.Queue.Invariant.{Inv, enqueue-Inv, dequeue-Inv, ack-Inv, nack-Inv}

-- The edges of the status diagram.
pub data Edge : JobStatus → JobStatus → Type 0 where
  take : Edge pending processing
  succeed : Edge processing completed
  retry : Edge processing pending
  bury : Edge processing dead

pub edge : (s : JobStatus) → is_pending s ≡ true → Edge s processing
edge pending h = take
edge processing h = cc
edge completed h = cc
edge failed h = cc
edge dead h = cc

pub stuck : (s t : JobStatus) → Edge s t → is_terminal s ≡ true → t ≡ s
stuck s t take h = cc
stuck s t succeed h = cc
stuck s t retry h = cc
stuck s t bury h = cc

module _ {P : Type 0} where
  -- A read after an update.
  pub get-update :
      (i id : ℕ) (patch : Job P → Job P) (q : JobQueue P) {j : Job P}
      → Table.get id q.jobs ≡ some j
      → Table.get i (update id patch q).jobs
        ≡ (if id == i then some (patch j) else Table.get i q.jobs)
  unfolding update
  get-update i id patch q {j} e = rw (e, update) (Table.get-set i id (patch j) q.jobs)

  -- One call, in which the clock, `randomUUID` and `Math.random` may give anything, but that an id
  -- is fresh.
  pub data Step (q : JobQueue P) : JobQueue P → Type 0 where
    enqueues :
        (o : EnqueueOptions P) (id now : ℕ)
        → Table.get id q.jobs ≡ none
        → Step q (enqueue o id now q).1
    dequeues : (now stamp : ℕ) → Step q (dequeue now stamp q).1
    acks :
        (id stamp : ℕ) (j : Job P)
        → Table.get id q.jobs ≡ some j
        → j.status ≡ processing
        → Step q (ack id stamp q)
    nacks :
        (id : ℕ) (error : Text) (random : Random) (now stamp : ℕ) (j : Job P)
        → Table.get id q.jobs ≡ some j
        → j.status ≡ processing
        → Step q (nack id error random now stamp q)

  pub data Steps (q : JobQueue P) : JobQueue P → Type 0 where
    here : Steps q q
    next : {r s : JobQueue P} → Steps q r → Step r s → Steps q s

  pub Step-Inv : {q r : JobQueue P} → Step q r → Inv q → Inv r
  Step-Inv {q} (enqueues o id now f) v = enqueue-Inv o id now q v
  Step-Inv {q} (dequeues now stamp) v = dequeue-Inv now stamp q v
  Step-Inv {q} (acks id stamp j e p) v = ack-Inv id stamp q v
  Step-Inv {q} (nacks id error random now stamp j e p) v =
      nack-Inv id error random now stamp q j v e (ground arith)

  pub Steps-Inv : {q r : JobQueue P} → Steps q r → Inv q → Inv r
  Steps-Inv here v = v
  Steps-Inv (next s t) v = Step-Inv t (Steps-Inv s v)

  pub empty-Inv : Inv (empty {P = P})
  unfolding Table.get
  empty-Inv = record { distinct = tt; each = λ id j e. cc }
