-- ===== src/Examples/Polling.antt =====
-- An engine that is started, and started again during a tick.
use ancore.Common.{ℕ, true, false, [], ◌∷◌, ◌≡◌, ◌≢◌, refl, arith, nat_eq, text_eq}
use ancore.Scheduler.Engine
use ancore.Scheduler.Engine.{
  SchedulerEngine, new_engine, is_ticking, drain, fire, schedule_poll, clear_timeout, end_tick,
}
use ancore.Scheduler.Polling.{restart_leaves_timer}

abbrev started_engine : SchedulerEngine
started_engine = Engine.start 1 new_engine

fired_timers : (fire 1 7 started_engine).timers ≡ []
unfolding fire Engine.start schedule_poll clear_timeout
fired_timers = refl

distinct : ◌≢◌ {A = ℕ} 3 2
distinct h = omega (arith, h)

restart_leaves_timer_example :
    let again = Engine.start 2 (Engine.stop (fire 1 7 started_engine)) in
    let after' = Engine.stop (schedule_poll 3 (end_tick 7 true again)) in
    (after'.running ≡ false) × (after'.timers ≡ 2 ∷ [])
restart_leaves_timer_example =
    restart_leaves_timer (fire 1 7 started_engine) 2 3 7 true fired_timers distinct
