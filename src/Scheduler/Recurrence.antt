-- ===== src/Scheduler/Recurrence.antt =====
-- When a recurring transfer runs next, services/relayer/src/scheduler/schedule-utils.ts.
use ancore.Common.{
  ℕ, ◌+◌, ◌*◌, ◌≤◌, ◌<◌, ◌≡◌, refl, ap, sym, ◌∙◌, inl, inr, arith, ◌⊎◌, Option, none, some, subst,
  ◌≢◌,
}
use ancore.Scheduler.Date.{ms_per_day, fields, set_utc_date, time_within_day, get_utc_date}
use ancore.Scheduler.ScheduleUtils.{
  ScheduleFrequency, once, daily, weekly, monthly, add_one_utc_month_clamped, compute_next_run_at,
  until,
}
use ancore.Scheduler.Setters.{set_utc_date-add}
use ancore.Scheduler.Months.{
  next_month, add_one_utc_month_clamped_lem, add_one_utc_month_clamped_bounds,
}

-- How far the next run is from this one.
abbrev pub Gap : ScheduleFrequency → ℕ → ℕ → Type 0
Gap once from next = ⊥
Gap daily from next = next ≡ from + ms_per_day
Gap weekly from next = next ≡ from + 7 * ms_per_day
Gap monthly from next =
    (fields next ≡ next_month (fields from))
    × (time_within_day next ≡ time_within_day from)
    × (from + 28 * ms_per_day ≤ next)
    × (next ≤ from + 31 * ms_per_day)

step : ScheduleFrequency → ℕ → ℕ
step once from = from
step daily from = set_utc_date from (get_utc_date from + 1)
step weekly from = set_utc_date from (get_utc_date from + 7)
step monthly from = add_one_utc_month_clamped from

step-Gap :
    (frequency : ScheduleFrequency) (from : ℕ)
    → frequency ≢ once
    → Gap frequency from (step frequency from)
unfolding step
step-Gap once from h = h refl
step-Gap daily from h = set_utc_date-add from 1 ∙ omega arith
step-Gap weekly from h = set_utc_date-add from 7
step-Gap monthly from h =
    let (a, b) = add_one_utc_month_clamped_lem from in
    let (c, d) = add_one_utc_month_clamped_bounds from in (a, b, c, d)

compute-until :
    (frequency : ScheduleFrequency) (from : ℕ) (end_at : Option ℕ)
    → frequency ≢ once
    → compute_next_run_at from frequency end_at ≡ until end_at (step frequency from)
unfolding compute_next_run_at step
compute-until once from end_at h = absurd (h refl)
compute-until daily from end_at h = refl
compute-until weekly from end_at h = refl
compute-until monthly from end_at h = refl

until-some :
    (end_at : Option ℕ) (x : ℕ) {next : ℕ}
    → until end_at x ≡ some next
    → (x ≡ next) × ((e : ℕ) → end_at ≡ some e → next ≤ e)
until-some none x h = (ground arith, λ e p. cc)
until-some (some e) x h = (ground arith, λ d p. ground arith)

until-none :
    (end_at : Option ℕ) (x : ℕ) → until end_at x ≡ none → (e : ℕ) × (end_at ≡ some e) × (e < x)
until-none none x h = cc
until-none (some e) x h = (e, refl, ground arith)

recurring-some :
    (from : ℕ) (frequency : ScheduleFrequency) (end_at : Option ℕ) (next : ℕ)
    → frequency ≢ once
    → compute_next_run_at from frequency end_at ≡ some next
    → Gap frequency from next × ((e : ℕ) → end_at ≡ some e → next ≤ e)
recurring-some from frequency end_at next r h =
    let (at, within) =
      until-some end_at (step frequency from) (sym (compute-until frequency from end_at r) ∙ h) in
    (subst (Gap frequency from) at (step-Gap frequency from r), within)

recurring-none :
    (from : ℕ) (frequency : ScheduleFrequency) (end_at : Option ℕ)
    → frequency ≢ once
    → compute_next_run_at from frequency end_at ≡ none
    → (next : ℕ) × (e : ℕ) × Gap frequency from next × (end_at ≡ some e) × (e < next)
recurring-none from frequency end_at r h =
    let (e, is, past) =
      until-none end_at (step frequency from) (sym (compute-until frequency from end_at r) ∙ h) in
    (step frequency from, e, step-Gap frequency from r, is, past)

-- The next run stands at the gap of the frequency, and is not past the end of the recurrence.
pub compute_next_run_at-some :
    (from : ℕ) (frequency : ScheduleFrequency) (end_at : Option ℕ) (next : ℕ)
    → compute_next_run_at from frequency end_at ≡ some next
    → Gap frequency from next × ((e : ℕ) → end_at ≡ some e → next ≤ e)
unfolding compute_next_run_at
compute_next_run_at-some from once end_at next h = cc
compute_next_run_at-some from daily end_at next h =
    recurring-some from daily end_at next (λ e. cc) h
compute_next_run_at-some from weekly end_at next h =
    recurring-some from weekly end_at next (λ e. cc) h
compute_next_run_at-some from monthly end_at next h =
    recurring-some from monthly end_at next (λ e. cc) h

-- There is no next run for a single transfer, and where it would be past the end of the recurrence,
-- and in no other case.
pub compute_next_run_at-none :
    (from : ℕ) (frequency : ScheduleFrequency) (end_at : Option ℕ)
    → compute_next_run_at from frequency end_at ≡ none
    → (frequency ≡ once)
      ⊎ ((next : ℕ) × (e : ℕ) × Gap frequency from next × (end_at ≡ some e) × (e < next))
compute_next_run_at-none from once end_at h = inl refl
compute_next_run_at-none from daily end_at h = inr (recurring-none from daily end_at (λ e. cc) h)
compute_next_run_at-none from weekly end_at h = inr (recurring-none from weekly end_at (λ e. cc) h)
compute_next_run_at-none from monthly end_at h =
    inr (recurring-none from monthly end_at (λ e. cc) h)

-- Without an end, a daily transfer runs again a day later.
pub compute_next_run_at_daily :
    (from : ℕ) → compute_next_run_at from daily none ≡ some (from + ms_per_day)
unfolding compute_next_run_at step
compute_next_run_at_daily from = ap some (step-Gap daily from (λ e. cc))
