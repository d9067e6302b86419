-- ===== src/Scheduler/Engine.antt =====
-- services/relayer/src/scheduler/SchedulerEngine.ts. A timer is a number, and `timers` holds those
-- that are set and have neither fired nor been cleared. A timer that fires begins a tick, and where
-- the tick ends it is followed by `schedulePoll`. The metrics are left out.
use ancore.Common.{
  ℕ, suc, Bool, true, false, Option, none, some, List, [], ◌∷◌, if◌then◌else◌, ◌==◌,
}

pub record SchedulerEngine : Type 0 where
  pub running : Bool
  pub timers : List ℕ
  pub poll_timer : Option ℕ
  pub in_flight_tick : Option ℕ
  pub consecutive_failures : ℕ

abbrev pub new_engine : SchedulerEngine
new_engine = record {
  running = false;
  timers = [];
  poll_timer = none;
  in_flight_tick = none;
  consecutive_failures = 0;
}

-- `clearTimeout`: a timer that is not set is no error.
unfoldable pub clear_timeout : ℕ → List ℕ → List ℕ
clear_timeout t [] = []
clear_timeout t (u ∷ us) = if u == t then clear_timeout t us else u ∷ clear_timeout t us

-- The timer that is set is an argument.
unfoldable pub schedule_poll : ℕ → SchedulerEngine → SchedulerEngine
schedule_poll t e = if e.running then record e { timers = t ∷ e.timers; poll_timer = some t } else e

unfoldable pub start : ℕ → SchedulerEngine → SchedulerEngine
unfolding schedule_poll
start t e = if e.running then e else schedule_poll t (record e { running = true })

unfoldable pub stop : SchedulerEngine → SchedulerEngine
unfolding clear_timeout
stop e = elim e.poll_timer [
  | none ↦ record e { running = false }
  | some t ↦ record e { running = false; timers = clear_timeout t e.timers; poll_timer = none }
]

abbrev pub is_ticking : SchedulerEngine → Bool
is_ticking e = elim e.in_flight_tick [ none ↦ false | some tick ↦ true ]

-- What `drain` returns, where `settles` says whether the tick in flight ends before the timeout.
unfoldable pub drain : (ℕ → Bool) → SchedulerEngine → Bool × SchedulerEngine
unfolding stop
drain settles e =
    let e' = stop e in elim e'.in_flight_tick [ none ↦ (true, e') | some tick ↦ (settles tick, e') ]

-- `runTick`, up to its `await`.
unfoldable pub begin_tick : ℕ → SchedulerEngine → SchedulerEngine
begin_tick tick e = record e { in_flight_tick = some tick }

-- The callback of a timer, which does not look at `running`.
unfoldable pub fire : ℕ → ℕ → SchedulerEngine → SchedulerEngine
unfolding clear_timeout begin_tick
fire t tick e = begin_tick tick (record e { timers = clear_timeout t e.timers })

-- `executeTick` returns or throws.
abbrev pub failures_after : Bool → ℕ → ℕ
failures_after true n = 0
failures_after false n = suc n

abbrev pub clear_tick : ℕ → Option ℕ → Option ℕ
clear_tick tick none = none
clear_tick tick (some current) = if current == tick then none else some current

-- The end of `executeTick`, and the `finally` of `runTick`.
unfoldable pub end_tick : ℕ → Bool → SchedulerEngine → SchedulerEngine
end_tick tick ok e = record e {
  in_flight_tick = clear_tick tick e.in_flight_tick;
  consecutive_failures = failures_after ok e.consecutive_failures;
}
