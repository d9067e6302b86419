-- ===== src/Server/Shutdown.antt =====
-- The shutdown: services/relayer/src/shutdown.ts. Times are milliseconds from the start of the run, and
-- timers fire at their time. What ends at the very moment of its deadline is late.
use ancore.Common.{
  ℕ, ◌+◌, ◌-◌, Bool, true, false, Option, none, some, List, [], ◌∷◌, map, ltb, leb, ◌&&◌,
  if◌then◌else◌,
}

-- How a promise ends, and when.
pub data Work : Type 0 where
  returns : ℕ → Bool → Work
  throws : ℕ → Work
  hangs : Work

-- The server is closed at a time, or never. A drain is given the timeout.
pub record ShutdownOptions : Type 0 where
  pub server : Option (Option ℕ)
  pub drainables : List (ℕ → Work)
  pub closers : List Work
  pub timeout_ms : ℕ

abbrev pub default_shutdown_timeout_ms : ℕ
default_shutdown_timeout_ms = 25000

-- When something is over, and whether it went well.
pub record DrainResult : Type 0 where
  pub at : ℕ
  pub ok : Bool

unfoldable pub close_server : Option ℕ → ℕ → DrainResult
close_server none timeout_ms = record { at = timeout_ms; ok = false }
close_server (some t) timeout_ms =
    if ltb t timeout_ms
    then record { at = t; ok = true }
    else record { at = timeout_ms; ok = false }

-- An error is caught, and counts as false.
unfoldable pub with_deadline : Work → ℕ → DrainResult
with_deadline (returns t ok) timeout_ms =
    if ltb t timeout_ms then record { at = t; ok = ok } else record { at = timeout_ms; ok = false }
with_deadline (throws t) timeout_ms =
    if ltb t timeout_ms
    then record { at = t; ok = false }
    else record { at = timeout_ms; ok = false }
with_deadline hangs timeout_ms = record { at = timeout_ms; ok = false }

-- A closer has no result but its end.
unfoldable pub close_result : Work → Work
close_result (returns t ok) = returns t true
close_result (throws t) = throws t
close_result hangs = hangs

-- `Promise.all`: over with the last one.
unfoldable pub last_end : List DrainResult → ℕ
last_end [] = 0
last_end (e ∷ es) = if ltb (last_end es) e.at then e.at else last_end es

unfoldable pub every_ok : List DrainResult → Bool
every_ok [] = true
every_ok (e ∷ es) = e.ok && every_ok es

unfoldable pub drain_all : ShutdownOptions → List DrainResult
unfolding close_server with_deadline
drain_all o =
    (elim o.server [
      | none ↦ record { at = 0; ok = true }
      | some closes ↦ close_server closes o.timeout_ms
    ])
    ∷ map (λ drain. with_deadline (drain o.timeout_ms) o.timeout_ms) o.drainables

unfoldable pub close_all : List Work → ℕ → List DrainResult
unfolding with_deadline close_result
close_all closers remaining_ms =
    map (λ close. with_deadline (close_result close) remaining_ms) closers

-- The release_resources of the resources, by what is left of the budget.
unfoldable pub release_resources : List Work → ℕ → ℕ → DrainResult
unfolding close_all last_end every_ok
release_resources [] started remaining_ms = record { at = started; ok = true }
release_resources (c ∷ cs) started remaining_ms =
    if leb remaining_ms 10 then record { at = started; ok = false } else record {
      at = started + last_end (close_all (c ∷ cs) remaining_ms);
      ok = every_ok (close_all (c ∷ cs) remaining_ms);
    }

unfoldable pub run_shutdown : ShutdownOptions → DrainResult
unfolding drain_all last_end every_ok release_resources
run_shutdown o =
    let drained = last_end (drain_all o) in
    let released = release_resources o.closers drained (o.timeout_ms - drained) in
    record { at = released.at; ok = every_ok (drain_all o) && released.ok }

-- What reaches the handlers of the signals: a signal, and the end of the run.
pub data Event : Type 0 where
  signal : Event
  finished : Bool → Event
  rejected : Event

-- `shuttingDown`, and the code of the exit where one is made.
unfoldable pub handle : Bool → Event → Bool × Option ℕ
handle true signal = (true, some 1)
handle false signal = (true, none)
handle shutting_down (finished clean) = (shutting_down, some (if clean then 0 else 1))
handle shutting_down rejected = (shutting_down, some 1)

-- The exit code of the process: that of the first exit.
unfoldable pub exit_code : Bool → List Event → Option ℕ
unfolding handle
exit_code shutting_down [] = none
exit_code shutting_down (e ∷ es) =
    let rest = exit_code (handle shutting_down e).0 es in
    elim (handle shutting_down e).1 [ none ↦ rest | some code ↦ some code ]
