-- ===== src/Queue/Handles.antt =====
-- The clients of `JobQueue`, services/relayer/src/queue/JobQueue.ts: what `dequeue` hands out is settled
-- by `ack` or `nack`, and once at most. `ack` and `nack` do not test this themselves.
use ancore.Common.{
  ℕ, true, false, Option, none, some, List, [], ◌∷◌, Text, ◌≡◌, sym, subst, inl, inr, nat_eq,
  text_eq, Option-cases, arith, ==_iff,
}
use ancore.Common.Table
use ancore.Queue.Types.{Job, EnqueueOptions, is_terminal}
use ancore.Queue.Backoff.{Random}
use ancore.Queue.JobQueue.{
  JobQueue, empty, enqueue, update, to_processing, candidate, dequeue, ack, nack,
}
use ancore.Queue.Invariant.{Inv, active_unique, candidate_lem}
use ancore.Queue.Dispatch.{dequeue-update}
use ancore.Queue.Steps.{get-update, Step, enqueues, dequeues, acks, nacks, Step-Inv, empty-Inv}
use ancore.Queue.Lifecycle.{Moves, Step-Moves, Step-ended}
use ancore.Worker.QueueWorker.{find, remove}
use ancore.Worker.InFlight.{
  Held, find_lem, remove-Held, enqueue-Held, take-Held, ack-Held, nack-Held,
}

-- A queue, and the jobs it has handed out that are not settled yet.
pub record Clients (P : Type 0) : Type 0 where
  pub queue : JobQueue P
  pub handles : List (Job P)

module _ {P : Type 0} where
  abbrev pub handed : Option (Job P) → List (Job P) → List (Job P)
  handed none js = js
  handed (some j) js = j ∷ js

  abbrev pub begun : Clients P
  begun = record { queue = empty; handles = [] }

  -- One call. The clock, `randomUUID` and `Math.random` may give anything, but that an id is fresh;
  -- a handle is given up when its job is settled.
  pub data Call (c : Clients P) : Clients P → Type 0 where
    enqueuing :
        (o : EnqueueOptions P) (id now : ℕ)
        → Table.get id c.queue.jobs ≡ none
        → Call c (record { queue = (enqueue o id now c.queue).1; handles = c.handles })
    dequeuing :
        (now stamp : ℕ)
        → Call c (record {
          queue = (dequeue now stamp c.queue).1;
          handles = handed (dequeue now stamp c.queue).0 c.handles;
        })
    acking :
        (id stamp : ℕ) (j : Job P)
        → find id c.handles ≡ some j
        → Call c (record { queue = ack id stamp c.queue; handles = remove id c.handles })
    nacking :
        (id : ℕ) (error : Text) (random : Random) (now stamp : ℕ) (j : Job P)
        → find id c.handles ≡ some j
        → Call c (record {
          queue = nack id error random now stamp c.queue;
          handles = remove id c.handles;
        })

  pub data Calls (c : Clients P) : Clients P → Type 0 where
    none_yet : Calls c c
    then_call : {d e : Clients P} → Calls c d → Call d e → Calls c e

  -- The invariant of the queue, and every handle is that of a job being processed, each once.
  pub record ClientsInv (c : Clients P) : Type 0 where
    pub queue_inv : Inv c.queue
    pub held : Held c.queue c.handles

  pub begun-ClientsInv : ClientsInv begun
  begun-ClientsInv = record { queue_inv = empty-Inv; held = tt }

  -- A call is a step of the queue.
  Call-Step : {c d : Clients P} → Call c d → ClientsInv c → Step c.queue d.queue
  Call-Step (enqueuing o id now f) v = enqueues o id now f
  Call-Step (dequeuing now stamp) v = dequeues now stamp
  Call-Step {c} (acking id stamp j f) v =
      let (_, (i, e, p), _, _) = find_lem id c.queue c.handles j v.held f in acks id stamp i e p
  Call-Step {c} (nacking id error random now stamp j f) v =
      let (_, (i, e, p), _, _) = find_lem id c.queue c.handles j v.held f in
      nacks id error random now stamp i e p

  dequeue-idle :
      (now stamp : ℕ) (q : JobQueue P)
      → Inv q
      → (dequeue now stamp q).0 ≡ none
      → (dequeue now stamp q).1 ≡ q
  unfolding dequeue
  dequeue-idle now stamp q v h = elim (Option-cases (candidate now q)) [
    | inl e ↦ ground (arith, e)
    | inr (c, e) ↦
        let (stored, _) = candidate_lem now q c v e in
        let after = get-update c.id c.id (to_processing stamp) q stored in
        absurd (ground (arith, e, after, ==_iff c.id c.id))
  ]

  dequeue-Held :
      (now stamp : ℕ) (q : JobQueue P) (js : List (Job P))
      → Inv q
      → Held q js
      → Held (dequeue now stamp q).1 (handed (dequeue now stamp q).0 js)
  dequeue-Held now stamp q js v h = elim (Option-cases (dequeue now stamp q).0) [
    | inl e ↦
        subst (λ o. Held (dequeue now stamp q).1 (handed o js)) (sym e)
          (subst (λ r. Held r js) (sym (dequeue-idle now stamp q v e)) h)
    | inr (j, e) ↦
        let (c, stored, waits, is, queue) = dequeue-update now stamp q j v e in
        subst (λ o. Held (dequeue now stamp q).1 (handed o js)) (sym e)
          (subst (λ r. Held r (j ∷ js)) (sym queue)
            (subst (λ i. Held (update c.id (to_processing stamp) q) (i ∷ js)) (sym is)
              (take-Held stamp c q js stored waits h)))
  ]

  Call-Held : {c d : Clients P} → Call c d → ClientsInv c → Held d.queue d.handles
  Call-Held {c} (enqueuing o id now f) v = enqueue-Held o id now c.queue c.handles f v.held
  Call-Held {c} (dequeuing now stamp) v =
      dequeue-Held now stamp c.queue c.handles v.queue_inv v.held
  Call-Held {c} (acking id stamp j f) v =
      let (_, p, a, _) = find_lem id c.queue c.handles j v.held f in
      ack-Held id stamp c.queue (remove id c.handles) p a (remove-Held id c.queue c.handles v.held)
  Call-Held {c} (nacking id error random now stamp j f) v =
      let (_, p, a, _) = find_lem id c.queue c.handles j v.held f in
      nack-Held id error random now stamp c.queue (remove id c.handles) p a
        (remove-Held id c.queue c.handles v.held)

  Call-ClientsInv : {c d : Clients P} → Call c d → ClientsInv c → ClientsInv d
  Call-ClientsInv s v = record {
    queue_inv = Step-Inv (Call-Step s v) v.queue_inv;
    held = Call-Held s v;
  }

  pub Calls-ClientsInv : {c d : Clients P} → Calls c d → ClientsInv c → ClientsInv d
  Calls-ClientsInv none_yet v = v
  Calls-ClientsInv (then_call s t) v = Call-ClientsInv t (Calls-ClientsInv s v)

  -- Where each job that was handed out is settled once at most, every job stays in the queue, and with
  -- one more call it is unchanged or moves along one edge of the status diagram, with its key and its
  -- limit kept and at most one more attempt.
  pub Call-Moves :
      {c d : Clients P} (i : ℕ) (j : Job P)
      → Calls begun c
      → Call c d
      → Table.get i c.queue.jobs ≡ some j
      → (k : Job P) × (Table.get i d.queue.jobs ≡ some k) × Moves j k
  Call-Moves i j s t e =
      let v = Calls-ClientsInv s begun-ClientsInv in Step-Moves i j v.queue_inv (Call-Step t v) e

  ended :
      {c d : Clients P} (i : ℕ) (j : Job P)
      → ClientsInv c
      → Calls c d
      → Table.get i c.queue.jobs ≡ some j
      → is_terminal j.status ≡ true
      → Table.get i d.queue.jobs ≡ some j
  ended i j v none_yet e t = e
  ended i j v (then_call s call) e t =
      let w = Calls-ClientsInv s v in
      Step-ended i j w.queue_inv (Call-Step call w) (ended i j v s e t) t

  -- Where each job that was handed out is settled once at most, no further calls change any field of a
  -- job that is completed or dead.
  pub terminal_absorbs :
      {c d : Clients P} (i : ℕ) (j : Job P)
      → Calls begun c
      → Calls c d
      → Table.get i c.queue.jobs ≡ some j
      → is_terminal j.status ≡ true
      → Table.get i d.queue.jobs ≡ some j
  terminal_absorbs i j s later e t = ended i j (Calls-ClientsInv s begun-ClientsInv) later e t

  -- Where each job that was handed out is settled once at most, two jobs with one idempotency key that
  -- have not ended are the same job.
  pub reachable-active_unique :
      {c : Clients P} (a b : ℕ) (i j : Job P)
      → Calls begun c
      → Table.get a c.queue.jobs ≡ some i
      → Table.get b c.queue.jobs ≡ some j
      → i.idempotency_key ≡ j.idempotency_key
      → is_terminal i.status ≡ false
      → is_terminal j.status ≡ false
      → a ≡ b
  reachable-active_unique {c} a b i j s e f k t u =
      active_unique c.queue a b i j (Calls-ClientsInv s begun-ClientsInv).queue_inv e f k t u
