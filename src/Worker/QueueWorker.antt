-- ===== src/Worker/QueueWorker.antt =====
-- services/relayer/src/workers/QueueWorker.ts over the queue in memory. The event loop runs one
-- callback at a time; here each is a function on the worker: `start`, `stop`, one poll, and the end
-- of one handler. `in_flight` holds the jobs whose `finish` has begun and not ended. What a handler
-- does is an argument: it resolves or it throws. The log and the timer are left out: a poll may come
-- at any time while the worker runs.
use ancore.Common.{
  ℕ, zero, suc, ◌+◌, ◌-◌, Bool, true, false, ◌&&◌, Option, none, some, List, [], ◌∷◌, Text,
  if◌then◌else◌, ltb, ◌==◌,
}
use ancore.Queue.Types.{Job, JobType, is_dead}
use ancore.Queue.Backoff.{Random}
use ancore.Queue.JobQueue.{JobQueue, dequeue, ack, nack, get_by_id}

pub record WorkerStats : Type 0 where
  pub processed : ℕ
  pub succeeded : ℕ
  pub failed : ℕ
  pub dead_lettered : ℕ

pub record QueueWorker (P : Type 0) : Type 0 where
  pub queue : JobQueue P
  pub concurrency : ℕ
  pub running : Bool
  pub active_jobs : ℕ
  pub in_flight : List (Job P)
  pub stats : WorkerStats

-- `options.concurrency ?? DEFAULT_CONCURRENCY`
abbrev pub default_concurrency : ℕ
default_concurrency = 1

abbrev pub no_stats : WorkerStats
no_stats = record { processed = 0; succeeded = 0; failed = 0; dead_lettered = 0 }

-- How a handler ends: it resolves, or throws an error with a message.
pub data Outcome : Type 0 where
  resolved : Outcome
  thrown : Text → Outcome

-- What the environment gives to the end of one job: the outcome, the clock and `Math.random`.
pub record Ending : Type 0 where
  pub outcome : Outcome
  pub random : Random
  pub now : ℕ
  pub stamp : ℕ

module _ {P : Type 0} where
  unfoldable pub new_worker : JobQueue P → ℕ → QueueWorker P
  new_worker q concurrency = record {
    queue = q;
    concurrency = concurrency;
    running = false;
    active_jobs = 0;
    in_flight = [];
    stats = no_stats;
  }

  unfoldable pub start : QueueWorker P → QueueWorker P
  start w = if w.running then w else record w { running = true }

  unfoldable pub stop : QueueWorker P → QueueWorker P
  stop w = record w { running = false }

  -- The body of the loop of `poll`, once it has a job.
  unfoldable pub begin : Job P → JobQueue P → QueueWorker P → QueueWorker P
  begin j q w = record w {
    queue = q;
    active_jobs = w.active_jobs + 1;
    in_flight = j ∷ w.in_flight;
    stats = record w.stats { processed = w.stats.processed + 1 };
  }

  -- The loop of `poll`. The clock is read anew in each round, in which the fuel is another.
  unfoldable pub poll : ℕ → (ℕ → ℕ × ℕ) → QueueWorker P → QueueWorker P
  poll zero clock w = w
  poll (suc fuel) clock w = elim (w.running && ltb w.active_jobs w.concurrency) [
    | false ↦ w
    | true ↦
        let (taken, q) = dequeue (clock fuel).0 (clock fuel).1 w.queue in
        elim taken [ none ↦ w | some j ↦ poll fuel clock (begin j q w) ]
  ]

  -- `this.handlers[job.type]` is missing, or the handler threw: the error of the `try` block.
  abbrev pub error_of : (JobType → Bool) → (JobType → Text) → Job P → Outcome → Option Text
  error_of registered no_handler j outcome =
      if registered j.type
      then elim outcome [ resolved ↦ none | thrown message ↦ some message ]
      else some (no_handler j.type)

  abbrev pub succeed : Job P → ℕ → QueueWorker P → QueueWorker P
  succeed j stamp w = record w {
    queue = ack j.id stamp w.queue;
    stats = record w.stats { succeeded = w.stats.succeeded + 1 };
  }

  -- `updated?.status === 'dead'`
  abbrev pub dead_letters : Option (Job P) → ℕ
  dead_letters none = 0
  dead_letters (some j) = if is_dead j.status then 1 else 0

  abbrev pub fail : Job P → Text → Ending → QueueWorker P → QueueWorker P
  fail j message e w =
      let q = nack j.id message e.random e.now e.stamp w.queue in
      record w {
        queue = q;
        stats = record w.stats {
          failed = w.stats.failed + 1;
          dead_lettered = w.stats.dead_lettered + dead_letters (get_by_id j.id q);
        };
      }

  -- The `try` and `catch` of `finish`.
  unfoldable pub conclude : Option Text → Job P → Ending → QueueWorker P → QueueWorker P
  conclude none j e w = succeed j e.stamp w
  conclude (some message) j e w = fail j message e w

  -- Its `finally`.
  abbrev pub release : QueueWorker P → QueueWorker P
  release w = record w { active_jobs = w.active_jobs - 1 }

  unfoldable pub finish :
      (JobType → Bool) → (JobType → Text) → Job P → Ending → QueueWorker P → QueueWorker P
  unfolding conclude
  finish registered no_handler j e w =
      release (conclude (error_of registered no_handler j e.outcome) j e w)

  unfoldable pub find : ℕ → List (Job P) → Option (Job P)
  find id [] = none
  find id (j ∷ js) = if j.id == id then some j else find id js

  unfoldable pub remove : ℕ → List (Job P) → List (Job P)
  remove id [] = []
  remove id (j ∷ js) = if j.id == id then js else j ∷ remove id js

  -- The job with this id, if it is in flight, ends.
  unfoldable pub settle :
      (JobType → Bool) → (JobType → Text) → ℕ → Ending → QueueWorker P → QueueWorker P
  settle registered no_handler id e w = elim (find id w.in_flight) [
    | none ↦ w
    | some j ↦ finish registered no_handler j e (record w { in_flight = remove id w.in_flight })
  ]
