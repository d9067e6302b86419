-- ===== src/Worker/Invariant.antt =====
-- What holds of the worker at every turn of the event loop.
use ancore.Common.{
  ℕ, zero, suc, ◌+◌, ◌≤◌, ◌<◌, Bool, true, ◌&&◌, Option, none, some, List, ◌∷◌, Text, ◌≡◌, refl,
  sym, subst, ◌⊎◌, inl, inr, nat_eq, arith, Option-cases, Bool-cases, length, ltb,
}
use ancore.Queue.Types.{Job, JobType}
use ancore.Queue.JobQueue.{JobQueue, update, dequeue, nack, get_by_id, to_processing}
use ancore.Queue.Invariant.{Inv, dequeue-Inv, ack-Inv, nack-Inv}
use ancore.Queue.Dispatch.{dequeue-update}
use ancore.Worker.QueueWorker.{
  QueueWorker, Ending, new_worker, begin, poll, error_of, succeed, fail, conclude, release, finish,
  find, remove, settle, dead_letters,
}
use ancore.Worker.InFlight.{
  Held, IsProcessing, absent, take-Held, ack-Held, nack-Held, remove-Held, find_lem,
}

module _ {P : Type 0} where
  -- The counters agree with the jobs in flight, which are within the concurrency and are stored as
  -- processing, each once.
  pub record WorkerInv (w : QueueWorker P) : Type 0 where
    pub queue_inv : Inv w.queue
    pub held : Held w.queue w.in_flight
    pub counted : w.active_jobs ≡ length w.in_flight
    pub bounded : w.active_jobs ≤ w.concurrency
    pub balanced : w.stats.processed ≡ w.stats.succeeded + w.stats.failed + w.active_jobs
    pub buried : w.stats.dead_lettered ≤ w.stats.failed

  begin-Inv :
      (now stamp : ℕ) (j : Job P) (w : QueueWorker P)
      → WorkerInv w
      → w.active_jobs < w.concurrency
      → (dequeue now stamp w.queue).0 ≡ some j
      → WorkerInv (begin j (dequeue now stamp w.queue).1 w)
  unfolding begin
  begin-Inv now stamp j w v room h =
      let (c, stored, waits, is, queue) = dequeue-update now stamp w.queue j v.queue_inv h in
      record {
        queue_inv = dequeue-Inv now stamp w.queue v.queue_inv;
        held =
            subst (λ r. Held r (j ∷ w.in_flight)) (sym queue)
              (subst (λ i. Held (update c.id (to_processing stamp) w.queue) (i ∷ w.in_flight))
                (sym is) (take-Held stamp c w.queue w.in_flight stored waits v.held));
        counted = omega (arith, v.counted);
        bounded = omega arith;
        balanced = omega (arith, v.balanced);
        buried = v.buried;
      }

  -- A poll keeps the invariant, however long it runs.
  pub poll-Inv :
      (fuel : ℕ) (clock : ℕ → ℕ × ℕ) (w : QueueWorker P)
      → WorkerInv w
      → WorkerInv (poll fuel clock w)
  unfolding poll
  poll-Inv zero clock w v = v
  poll-Inv (suc fuel) clock w v = elim (Bool-cases (w.running && ltb w.active_jobs w.concurrency)) [
    | inr shut ↦ rw (shut, poll) v
    | inl on ↦ elim (Option-cases (dequeue (clock fuel).0 (clock fuel).1 w.queue).0) [
      | inl idle ↦ rw (on, poll, idle) v
      | inr (j, e) ↦
          rw (on, poll, e)
            (poll-Inv fuel clock _ (begin-Inv (clock fuel).0 (clock fuel).1 j w v (ground arith) e))
    ]
  ]

  -- Why a poll of a running worker ends: it is busy to its limit, or the queue as it is left had no job
  -- to hand out at the time of one of the rounds.
  abbrev pub Filled : ℕ → (ℕ → ℕ × ℕ) → QueueWorker P → Type 0
  Filled fuel clock w =
      (w.concurrency ≤ w.active_jobs)
      ⊎ ((k : ℕ) × (k < fuel) × ((dequeue (clock k).0 (clock k).1 w.queue).0 ≡ none))

  succeed-Inv :
      (j : Job P) (stamp : ℕ) (w : QueueWorker P) (rest : List (Job P))
      → WorkerInv w
      → IsProcessing j.id w.queue
      → absent j.id rest ≡ true
      → Held w.queue rest
      → length w.in_flight ≡ suc (length rest)
      → WorkerInv (release (succeed j stamp (record w { in_flight = rest })))
  succeed-Inv j stamp w rest v p a h l = record {
    queue_inv = ack-Inv j.id stamp w.queue v.queue_inv;
    held = ack-Held j.id stamp w.queue rest p a h;
    counted = omega (arith, v.counted);
    bounded = omega (arith, v.bounded);
    balanced = omega (arith, v.balanced, v.counted);
    buried = v.buried;
  }

  dead_letters-le : (o : Option (Job P)) → dead_letters o ≤ 1
  dead_letters-le none = omega arith
  dead_letters-le (some j) = ground arith

  fail-Inv :
      (j : Job P) (message : Text) (e : Ending) (w : QueueWorker P) (rest : List (Job P))
      → WorkerInv w
      → IsProcessing j.id w.queue
      → absent j.id rest ≡ true
      → Held w.queue rest
      → length w.in_flight ≡ suc (length rest)
      → WorkerInv (release (fail j message e (record w { in_flight = rest })))
  fail-Inv j message e w rest v p a h l = record {
    queue_inv = nack-Inv j.id message e.random e.now e.stamp w.queue p.0 v.queue_inv p.1 (rw p.2);
    held = nack-Held j.id message e.random e.now e.stamp w.queue rest p a h;
    counted = omega (arith, v.counted);
    bounded = omega (arith, v.bounded);
    balanced = omega (arith, v.balanced, v.counted);
    buried = omega (
      arith,
      v.buried,
      dead_letters-le (get_by_id j.id (nack j.id message e.random e.now e.stamp w.queue)),
    );
  }

  finish-Inv :
      (registered : JobType → Bool) (no_handler : JobType → Text) (j : Job P) (e : Ending)
      (w : QueueWorker P) (rest : List (Job P))
      → WorkerInv w
      → IsProcessing j.id w.queue
      → absent j.id rest ≡ true
      → Held w.queue rest
      → length w.in_flight ≡ suc (length rest)
      → WorkerInv (finish registered no_handler j e (record w { in_flight = rest }))
  unfolding finish conclude
  finish-Inv registered no_handler j e w rest v p a h l =
      elim (Option-cases (error_of registered no_handler j e.outcome)) [
        | inl fine ↦ rw (fine, conclude) (succeed-Inv j e.stamp w rest v p a h l)
        | inr (message, bad) ↦ rw (bad, conclude) (fail-Inv j message e w rest v p a h l)
      ]

  -- The end of a job keeps the invariant, whatever its handler did.
  pub settle-Inv :
      (registered : JobType → Bool) (no_handler : JobType → Text) (id : ℕ) (e : Ending)
      (w : QueueWorker P)
      → WorkerInv w
      → WorkerInv (settle registered no_handler id e w)
  unfolding settle
  settle-Inv registered no_handler id e w v = elim (Option-cases (find id w.in_flight)) [
    | inl out ↦ rw (out, settle) v
    | inr (j, f) ↦
        let (same, p, a, l) = find_lem id w.queue w.in_flight j v.held f in
        let rest = remove id w.in_flight in
        rw (f, settle)
          (finish-Inv registered no_handler j e w rest v
            (subst (λ i. IsProcessing i w.queue) (sym same) p)
            (subst (λ i. absent i rest ≡ true) (sym same) a)
            (remove-Held id w.queue w.in_flight v.held) l)
  ]

  -- A new worker over a queue in order.
  pub new_worker-Inv :
      (q : JobQueue P) (concurrency : ℕ) → Inv q → WorkerInv (new_worker q concurrency)
  unfolding new_worker
  new_worker-Inv q concurrency v = record {
    queue_inv = v;
    held = tt;
    counted = refl;
    bounded = omega arith;
    balanced = omega arith;
    buried = omega arith;
  }
