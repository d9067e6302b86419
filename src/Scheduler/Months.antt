-- ===== src/Scheduler/Months.antt =====
-- A month later: `addOneUTCMonthClamped` of services/relayer/src/scheduler/schedule-utils.ts.
use ancore.Common.{ℕ, ◌+◌, ◌-◌, ◌*◌, ◌/◌, ◌%◌, ◌≤◌, ◌<◌, ◌≡◌, refl, ap, sym, ◌∙◌, arith, min}
use ancore.Scheduler.Date.{
  ms_per_day, is_leap, month_length, days_before_year, days_before_month, make_day, Fields,
  fields_of_day, fields, set_utc_date, set_utc_month, date_utc, time_within_day,
}
use ancore.Scheduler.Civil.{make_day_lem, month_length-bounds}
use ancore.Scheduler.Unique.{fields_of_day-make_day}
use ancore.Scheduler.ScheduleUtils.{days_in_utc_month, add_one_utc_month_clamped}
use ancore.Scheduler.Setters.{
  fields-IsCivil, fields-make_date, make_day-carry, make_day-zero, fields-set_utc_date,
  fields-set_utc_month, time-set_utc_date, time-set_utc_month,
}

-- The month after, with the day clamped to its length.
abbrev pub next_month : Fields → Fields
next_month f =
    let y = f.year + (f.month + 1) / 12 in
    let m = (f.month + 1) % 12 in
    record { year = y; month = m; day = min f.day (month_length (is_leap y) m) }

days_in_utc_month_lem :
    (y m : ℕ) → days_in_utc_month y m ≡ month_length (is_leap (y + m / 12)) (m % 12)
unfolding days_in_utc_month date_utc
days_in_utc_month_lem y m =
    let leap = is_leap (y + m / 12) in
    ap (λ (f : Fields). f.day)
      (fields-make_date (make_day y (m + 1) 0) 0
        ∙ ap fields_of_day (make_day-zero y m)
        ∙ fields_of_day-make_day
            (record { year = y + m / 12; month = m % 12; day = month_length leap (m % 12) })
            (record {
              month_lt = omega arith;
              day_pos = omega (arith, month_length-bounds leap (m % 12));
              day_le = omega arith;
            }))

-- Clamping keeps the recurrence in the next month: the date is that of the month after, on the same
-- day or, where that month is shorter, on its last day, at the same time of day.
pub add_one_utc_month_clamped_lem :
    (t : ℕ)
    → (fields (add_one_utc_month_clamped t) ≡ next_month (fields t))
      × (time_within_day (add_one_utc_month_clamped t) ≡ time_within_day t)
unfolding add_one_utc_month_clamped
add_one_utc_month_clamped_lem t =
    let f = fields t in
    let v = (fields-IsCivil t).0 in
    let target = next_month f in
    let length = month_length (is_leap target.year) target.month in
    let first = set_utc_date t 1 in
    let moved = set_utc_month first (f.month + 1) in
    let last = days_in_utc_month_lem f.year (f.month + 1) in
    let at_first =
      fields-set_utc_date t 1 f refl (omega arith)
        (omega (arith, month_length-bounds (is_leap f.year) f.month)) in
    let at_moved =
      fields-set_utc_month first (f.month + 1) (record f { day = 1 }) at_first (omega arith)
        (omega arith) in
    let bounds = month_length-bounds (is_leap target.year) target.month in
    (
      ap (λ d. fields (set_utc_date moved (min f.day d))) last
          ∙ fields-set_utc_date moved (min f.day length) (record target { day = 1 }) at_moved
              (omega (arith, v.day_pos, bounds)) (omega (arith, bounds)),
      time-set_utc_date moved _ ∙ time-set_utc_month first (f.month + 1) ∙ time-set_utc_date t 1,
    )

make_day-next :
    (y m d : ℕ)
    → m < 12
    → 1 ≤ d
    → make_day y (m + 1) d
      ≡ days_before_year y + days_before_month (is_leap y) m + month_length (is_leap y) m + d - 1
unfolding make_day
make_day-next y m d h p = omega (arith, zero, month_length-bounds (is_leap y) m)
  where
    zero :
        make_day y (m + 1) 0
        ≡ days_before_year y + days_before_month (is_leap y) m + month_length (is_leap y) m - 1
    zero =
        let year : y + m / 12 ≡ y = omega arith in
        let month : m % 12 ≡ m = omega arith in
        make_day-zero y m
        ∙ (λ i. make_day (year i) (month i) (month_length (is_leap (year i)) (month i)))
        ∙ make_day_lem y m (month_length (is_leap y) m) h

-- From one month to the next there are at least 28 days and at most 31.
pub add_one_utc_month_clamped_bounds :
    (t : ℕ)
    → (t + 28 * ms_per_day ≤ add_one_utc_month_clamped t)
      × (add_one_utc_month_clamped t ≤ t + 31 * ms_per_day)
add_one_utc_month_clamped_bounds t =
    let f = fields t in
    let g = next_month f in
    let (v, day) = fields-IsCivil t in
    let (moved, time) = add_one_utc_month_clamped_lem t in
    let next = add_one_utc_month_clamped t in
    let target : make_day g.year g.month g.day ≡ next / ms_per_day =
      ap (λ (h : Fields). make_day h.year h.month h.day) (sym moved) ∙ (fields-IsCivil next).1 in
    let bounds = month_length-bounds (is_leap f.year) f.month in
    let bounds' = month_length-bounds (is_leap g.year) g.month in
    let pos : 1 ≤ g.day = omega (arith, v.day_pos, bounds') in
    omega (
      arith,
      day,
      time,
      target,
      make_day-carry f.year (f.month + 1) g.day,
      make_day-next f.year f.month g.day v.month_lt pos,
      make_day_lem f.year f.month f.day v.month_lt,
      v.day_pos,
      v.day_le,
      bounds,
      bounds',
    )
