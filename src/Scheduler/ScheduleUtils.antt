-- ===== src/Scheduler/ScheduleUtils.antt =====
-- services/relayer/src/scheduler/schedule-utils.ts
use ancore.Common.{ℕ, ◌+◌, Bool, Option, none, some, if◌then◌else◌, ltb, leb, min}
use ancore.Scheduler.Date.{
  get_utc_date, get_utc_month, get_utc_full_year, set_utc_date, set_utc_month, date_utc,
}

pub data ScheduleFrequency : Type 0 where
  once daily weekly monthly : ScheduleFrequency

-- The month counts from 0, and the day 0 of the month after it is its last.
unfoldable pub days_in_utc_month : ℕ → ℕ → ℕ
days_in_utc_month year month = get_utc_date (date_utc year (month + 1) 0)

unfoldable pub add_one_utc_month_clamped : ℕ → ℕ
unfolding days_in_utc_month
add_one_utc_month_clamped date =
    let original_day = get_utc_date date in
    let target_year = get_utc_full_year date in
    let target_month = get_utc_month date + 1 in
    let target_month_last_day = days_in_utc_month target_year target_month in
    let first = set_utc_date date 1 in
    let moved = set_utc_month first target_month in
    set_utc_date moved (min original_day target_month_last_day)

-- `endAt && next.getTime() > endAt.getTime()` drops the run.
abbrev pub until : Option ℕ → ℕ → Option ℕ
until none next = some next
until (some end_at) next = if ltb end_at next then none else some next

unfoldable pub compute_next_run_at : ℕ → ScheduleFrequency → Option ℕ → Option ℕ
compute_next_run_at from once end_at = none
compute_next_run_at from daily end_at = until end_at (set_utc_date from (get_utc_date from + 1))
compute_next_run_at from weekly end_at = until end_at (set_utc_date from (get_utc_date from + 7))
compute_next_run_at from monthly end_at = until end_at (add_one_utc_month_clamped from)

abbrev pub is_due : ℕ → ℕ → Bool
is_due next_run_at now = leb next_run_at now
