-- ===== src/Examples/Queue.antt =====
-- A queue with one job, which fails once.
use ancore.Common.{
  ℕ, ◌≤◌, true, none, some, [], ◌∷◌, codes, ◌≡◌, refl, arith, nat_eq, text_eq, sort, insert,
}
use ancore.Common.Table
use ancore.Queue.Types.{Job, EnqueueOptions, pending, completed, relay_execute}
use ancore.Queue.Backoff.{Random}
use ancore.Queue.JobQueue.{
  JobQueue, empty, new_job, insert_job, find_active, enqueue, update, candidate, is_eligible,
  to_processing, dequeue, ack,
}
use ancore.Queue.Invariant.{Inv}
use ancore.Queue.Lifecycle.{Moves}
use ancore.Queue.Handles.{
  Clients, Call, Calls, begun, handed, Calls-ClientsInv, begun-ClientsInv, Call-Moves,
  terminal_absorbs, reachable-active_unique,
}
use ancore.Queue.Dispatch.{dequeue_oldest}
use ancore.Worker.QueueWorker.{find, remove}

abbrev half : Random
half = record { num = 1; den = 2; below = omega arith }

abbrev options : EnqueueOptions ℕ
options = record {
  idempotency_key = codes "transfer-1";
  type = relay_execute;
  payload = 42;
  max_attempts = none;
  request_id = none;
}

abbrev queue : JobQueue ℕ
queue = (enqueue options 1 1000 empty).1

abbrev job : Job ℕ
job = record {
  id = 1;
  idempotency_key = codes "transfer-1";
  type = relay_execute;
  payload = 42;
  request_id = none;
  status = pending;
  attempts = 0;
  max_attempts = 5;
  created_at = 1000;
  updated_at = 1000;
  retry_after = none;
  last_error = none;
}

abbrev one_job : Clients ℕ
one_job = record { queue = queue; handles = [] }

enqueued : Calls begun one_job
unfolding Table.get
enqueued = Calls.then_call Calls.none_yet (Call.enqueuing options 1 1000 refl)

stored : Table.get 1 queue.jobs ≡ some job
unfolding enqueue find_active new_job insert_job Table.get Table.set
stored = refl

queue-Inv : Inv queue
queue-Inv = (Calls-ClientsInv enqueued begun-ClientsInv).queue_inv

reachable-active_unique_example : ◌≡◌ {A = ℕ} 1 1
reachable-active_unique_example =
    reachable-active_unique 1 1 job job enqueued stored stored refl refl refl

Call-Moves_example :
    (k : Job ℕ) × (Table.get 1 (dequeue 2000 2000 queue).1.jobs ≡ some k) × Moves job k
Call-Moves_example = Call-Moves 1 job enqueued (Call.dequeuing 2000 2000) stored

taken : (dequeue 2000 2000 queue).0 ≡ some (to_processing 2000 job)
unfolding enqueue find_active new_job insert_job Table.get Table.set dequeue candidate sort insert
    update
taken = refl

dequeue_oldest_example :
    (c : Job ℕ) × (Table.get c.id queue.jobs ≡ some c)
    × (is_eligible 2000 c ≡ true)
    × (to_processing 2000 job ≡ to_processing 2000 c)
    × (Table.get c.id (dequeue 2000 2000 queue).1.jobs ≡ some (to_processing 2000 job))
    × ((id : ℕ) (b : Job ℕ)
        → Table.get id queue.jobs ≡ some b
        → is_eligible 2000 b ≡ true
        → c.created_at ≤ b.created_at)
dequeue_oldest_example = dequeue_oldest 2000 2000 queue (to_processing 2000 job) queue-Inv taken

-- The queue while its only job is being processed.
abbrev busy : JobQueue ℕ
busy = (dequeue 2000 2000 queue).1

abbrev processing_one : Clients ℕ
processing_one = record { queue = busy; handles = to_processing 2000 job ∷ [] }

processes : Calls begun processing_one
unfolding enqueue find_active new_job insert_job Table.get Table.set dequeue candidate sort insert
    update
processes = Calls.then_call enqueued (Call.dequeuing 2000 2000)

held : Table.get 1 busy.jobs ≡ some (to_processing 2000 job)
unfolding enqueue find_active new_job insert_job Table.get Table.set dequeue candidate sort insert
    update
held = refl

idle : (dequeue 3000 3000 busy).0 ≡ none
unfolding enqueue find_active new_job insert_job Table.get Table.set dequeue candidate sort insert
    update
idle = refl

abbrev finished : JobQueue ℕ
finished = ack 1 3000 busy

abbrev done : Job ℕ
done = record (to_processing 2000 job) { status = completed; updated_at = 3000 }

abbrev settled : Clients ℕ
settled = record { queue = finished; handles = [] }

completes : Calls begun settled
unfolding find remove
completes = Calls.then_call processes (Call.acking 1 3000 (to_processing 2000 job) refl)

kept : Table.get 1 finished.jobs ≡ some done
unfolding ack enqueue find_active new_job insert_job Table.get Table.set dequeue candidate sort
    insert update
kept = refl

abbrev later : Clients ℕ
later = record {
  queue = (dequeue 4000 4000 finished).1;
  handles = handed (dequeue 4000 4000 finished).0 [];
}

dequeues_later : Calls settled later
dequeues_later = Calls.then_call Calls.none_yet (Call.dequeuing 4000 4000)

terminal_absorbs_example : Table.get 1 later.queue.jobs ≡ some done
terminal_absorbs_example = terminal_absorbs 1 done completes dequeues_later kept refl
