-- ===== src/Examples/Worker.antt =====
-- A worker that takes one of two jobs at a time.
use ancore.Common.{ℕ, Bool, true, none, Text, codes, refl, nat_eq, text_eq}
use ancore.Common.Table
use ancore.Queue.Types.{JobType, EnqueueOptions, relay_execute}
use ancore.Queue.JobQueue.{empty}
use ancore.Worker.QueueWorker.{QueueWorker, new_worker, start}
use ancore.Worker.Invariant.{WorkerInv}
use ancore.Worker.Turns.{Turn, turn, Run, Run-Inv}

abbrev registered : JobType → Bool
registered type = true

abbrev no_handler : JobType → Text
no_handler type = codes "No handler registered"

abbrev options : EnqueueOptions ℕ
options = record {
  idempotency_key = codes "transfer-1";
  type = relay_execute;
  payload = 42;
  max_attempts = none;
  request_id = none;
}

abbrev clock : ℕ → ℕ × ℕ
clock n = (2000, 2000)

-- Started, with one job in the queue.
abbrev ready : QueueWorker ℕ
ready =
    turn registered no_handler (Turn.enqueues options 1 1000)
      (turn registered no_handler Turn.starts (new_worker empty 1))

ready-Run : Run registered no_handler 1 ready
unfolding turn start new_worker Table.get
ready-Run = Run.next (Turn.enqueues options 1 1000) (Run.next Turn.starts Run.made tt) refl

abbrev busy : QueueWorker ℕ
busy = turn registered no_handler (Turn.polls 2 clock) ready

busy-Run : Run registered no_handler 1 busy
busy-Run = Run.next (Turn.polls 2 clock) ready-Run tt

Run-Inv_example : WorkerInv busy
Run-Inv_example = Run-Inv registered no_handler 1 busy busy-Run
