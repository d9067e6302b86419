-- ===== src/Scheduler/Polling.antt =====
-- The timers of services/relayer/src/scheduler/SchedulerEngine.ts.
use ancore.Common.{
  ℕ, Bool, true, false, some, List, [], ◌∷◌, ◌≡◌, ◌≢◌, refl, inl, inr, ==_iff, arith, Option-cases,
}
use ancore.Scheduler.Engine.{
  SchedulerEngine, new_engine, clear_timeout, schedule_poll, start, stop, is_ticking, drain,
  begin_tick, fire, end_tick,
}

-- How far the loop of the engine is: at rest, waiting for a timer, or in a tick.
pub data Phase : Type 0 where
  rest ticking : Phase
  waits : ℕ → Phase

-- The timers that a phase has set.
abbrev pub Timed : Phase → SchedulerEngine → Type 0
Timed rest e = (e.timers ≡ []) × (e.running ≡ false)
Timed ticking e = e.timers ≡ []
Timed (waits t) e = (e.timers ≡ t ∷ []) × (e.poll_timer ≡ some t) × (e.running ≡ true)

-- The engine is started only at rest, as server.ts does. A tick by hand may begin and end at any time.
pub data Run : Phase → SchedulerEngine → Type 0 where
  made : Run rest new_engine
  started : {e : SchedulerEngine} (t : ℕ) → Run rest e → Run (waits t) (start t e)
  stopped_waiting : {e : SchedulerEngine} (t : ℕ) → Run (waits t) e → Run rest (stop e)
  stopped_ticking : {e : SchedulerEngine} → Run ticking e → Run ticking (stop e)
  fired : {e : SchedulerEngine} (t tick : ℕ) → Run (waits t) e → Run ticking (fire t tick e)
  ended :
      {e : SchedulerEngine} {p : Phase} (tick : ℕ) (ok : Bool)
      → Run p e
      → Run p (end_tick tick ok e)
  begun : {e : SchedulerEngine} {p : Phase} (tick : ℕ) → Run p e → Run p (begin_tick tick e)
  rescheduled :
      {e : SchedulerEngine} (t : ℕ)
      → e.running ≡ true
      → Run ticking e
      → Run (waits t) (schedule_poll t e)
  rested :
      {e : SchedulerEngine} (t : ℕ)
      → e.running ≡ false
      → Run ticking e
      → Run rest (schedule_poll t e)

clear-empty : (t : ℕ) (us : List ℕ) → us ≡ [] → clear_timeout t us ≡ []
unfolding clear_timeout
clear-empty t [] h = refl
clear-empty t (u ∷ us) h = cc

clear-one : (t : ℕ) (us : List ℕ) → us ≡ t ∷ [] → clear_timeout t us ≡ []
unfolding clear_timeout
clear-one t [] h = cc
clear-one t (u ∷ us) h = ground (arith, clear-empty t us)

stop-empty : (e : SchedulerEngine) → e.timers ≡ [] → (stop e).timers ≡ []
unfolding stop
stop-empty e h = elim (Option-cases e.poll_timer) [
  | inl q ↦ ground arith
  | inr (t, q) ↦ ground (arith, clear-empty t e.timers h)
]

Run-Timed : {p : Phase} {e : SchedulerEngine} → Run p e → Timed p e
unfolding start stop schedule_poll fire begin_tick end_tick
Run-Timed made = (refl, refl)
Run-Timed (started {e} t r) = ground (arith, Run-Timed r)
Run-Timed (stopped_waiting {e} t r) = ground (arith, Run-Timed r, clear-one t e.timers)
Run-Timed (stopped_ticking {e} r) = stop-empty e (Run-Timed r)
Run-Timed (fired {e} t tick r) = ground (arith, Run-Timed r, clear-one t e.timers)
Run-Timed (ended {p = rest} tick ok r) = Run-Timed r
Run-Timed (ended {p = ticking} tick ok r) = Run-Timed r
Run-Timed (ended {p = waits t} tick ok r) = Run-Timed r
Run-Timed (begun {p = rest} tick r) = Run-Timed r
Run-Timed (begun {p = ticking} tick r) = Run-Timed r
Run-Timed (begun {p = waits t} tick r) = Run-Timed r
Run-Timed (rescheduled {e} t h r) = ground (arith, Run-Timed r)
Run-Timed (rested {e} t h r) = ground (arith, Run-Timed r)

stop-keeps :
    (e : SchedulerEngine)
    → ((stop e).running ≡ false) × ((stop e).in_flight_tick ≡ e.in_flight_tick)
unfolding stop
stop-keeps e = ground arith

stop-timers : (p : Phase) (e : SchedulerEngine) → Timed p e → (stop e).timers ≡ []
unfolding stop
stop-timers rest e h = stop-empty e h.0
stop-timers ticking e h = stop-empty e h
stop-timers (waits t) e h = ground (arith, clear-one t e.timers)

-- An engine that is started only at rest is stopped by `drain` and has no timer left. The answer is
-- yes where no tick is in flight, and else it is whether the tick in flight ends in time.
pub drain_lem :
    (p : Phase) (e : SchedulerEngine) (settles : ℕ → Bool)
    → Run p e
    → let (idle, e') = drain settles e in
      (e'.running ≡ false)
      × (e'.timers ≡ [])
      × (is_ticking e ≡ false → idle ≡ true)
      × ((tick : ℕ) → e.in_flight_tick ≡ some tick → idle ≡ settles tick)
unfolding drain
drain_lem p e settles r =
    let (off, kept) = stop-keeps e in
    let quiet = stop-timers p e (Run-Timed r) in
    elim (Option-cases e.in_flight_tick) [
      | inl q ↦ (ground arith, ground arith, λ h. ground arith, λ tick h. ground arith)
      | inr (current, q) ↦ (ground arith, ground arith, λ h. ground arith, λ tick h. ground arith)
    ]

-- From an engine with no timer, as it is during a tick: stopped, started again, and stopped once more
-- after the tick has ended and set its timer, it is not running and still has the timer of the start.
pub restart_leaves_timer :
    (e : SchedulerEngine) (t u tick : ℕ) (ok : Bool)
    → e.timers ≡ []
    → u ≢ t
    → let again = start t (stop e) in
      let after = stop (schedule_poll u (end_tick tick ok again)) in
      (after.running ≡ false) × (after.timers ≡ t ∷ [])
unfolding start stop schedule_poll end_tick clear_timeout
restart_leaves_timer e t u tick ok h n = elim (Option-cases e.poll_timer) [
  | inl q ↦ (ground arith, ground (arith, ==_iff t u, ==_iff u u))
  | inr (v, q) ↦ (ground arith, ground (arith, clear-empty v e.timers h, ==_iff t u, ==_iff u u))
]
