-- ===== src/Scheduler/Setters.antt =====
-- The setters of the JavaScript `Date` in UTC, by the fields of the dates they give.
use ancore.Common.{ℕ, suc, ◌+◌, ◌-◌, ◌*◌, ◌/◌, ◌%◌, ◌≤◌, ◌<◌, ◌≡◌, ap, sym, ◌∙◌, arith, subst}
use native.Mathlib.Decide.{dec_lt}
use ancore.Scheduler.Date.{
  ms_per_day, is_leap, month_length, days_before_year, days_before_month, make_day, make_date,
  Fields, fields_of_day, fields, set_utc_date, set_utc_month, time_within_day, get_utc_date,
}
use ancore.Scheduler.Civil.{
  IsCivil, days_before_month-year, make_day_lem, make_day-fields_of_day, month_length-bounds,
}
use ancore.Scheduler.Unique.{fields_of_day-make_day}

-- The fields of a time are a date of the calendar, whose day is that of the time.
pub fields-IsCivil :
    (t : ℕ)
    → IsCivil (fields t)
      × (make_day (fields t).year (fields t).month (fields t).day ≡ t / ms_per_day)
unfolding fields
fields-IsCivil t = make_day-fields_of_day (t / ms_per_day)

-- To write a date and read its fields is to read the fields of its day.
pub fields-make_date : (n t : ℕ) → fields (make_date n (time_within_day t)) ≡ fields_of_day n
unfolding fields make_date
fields-make_date n t =
    let e : (n * ms_per_day + t % ms_per_day) / ms_per_day ≡ n = omega arith in rw e

-- `setUTCDate` to a later day adds whole days, across the ends of months and years.
pub set_utc_date-add : (t k : ℕ) → set_utc_date t (get_utc_date t + k) ≡ t + k * ms_per_day
unfolding set_utc_date make_date
set_utc_date-add t k =
    let (v, day) = fields-IsCivil t in
    omega (
      arith,
      day,
      v.day_pos,
      make_day_lem (fields t).year (fields t).month (fields t).day v.month_lt,
      make_day_lem (fields t).year (fields t).month ((fields t).day + k) v.month_lt,
    )

-- `MakeDay` carries months over into years.
pub make_day-carry : (y m d : ℕ) → make_day y m d ≡ make_day (y + m / 12) (m % 12) d
unfolding make_day
make_day-carry y m d = sym (make_day_lem (y + m / 12) (m % 12) d (omega arith))

zero_inside :
    (y m : ℕ)
    → m < 11
    → days_before_year y + days_before_month (is_leap y) (suc m) + 0 - 1
      ≡ make_day y m (month_length (is_leap y) m)
unfolding days_before_month
zero_inside y m h = omega (arith, make_day_lem y m (month_length (is_leap y) m))

zero_across :
    (y m : ℕ)
    → m ≡ 11
    → days_before_year (suc y) + days_before_month (is_leap (suc y)) 0 + 0 - 1
      ≡ make_day y m (month_length (is_leap y) m)
unfolding days_before_month days_before_year
zero_across y m h = rw h (
    omega
      (arith, make_day_lem y 11 (month_length (is_leap y) 11), days_before_month-year (is_leap y)))

-- The day 0 of a month is the last day of the month before.
pub make_day-zero :
    (y m : ℕ)
    → make_day y (m + 1) 0
      ≡ make_day (y + m / 12) (m % 12) (month_length (is_leap (y + m / 12)) (m % 12))
make_day-zero y m = elim (dec_lt (m % 12) 11) [
  | yes h ↦
      let year : y + (m + 1) / 12 ≡ y + m / 12 = omega arith in
      let month : (m + 1) % 12 ≡ suc (m % 12) = omega arith in
      make_day-carry y (m + 1) 0
      ∙ (λ i. make_day (year i) (month i) 0)
      ∙ make_day_lem (y + m / 12) (suc (m % 12)) 0 (omega arith)
      ∙ zero_inside (y + m / 12) (m % 12) h
  | no h ↦
      let year : y + (m + 1) / 12 ≡ suc (y + m / 12) = omega arith in
      let month : (m + 1) % 12 ≡ 0 = omega arith in
      make_day-carry y (m + 1) 0
      ∙ (λ i. make_day (year i) (month i) 0)
      ∙ make_day_lem (suc (y + m / 12)) 0 0 (omega arith)
      ∙ zero_across (y + m / 12) (m % 12) (omega arith)
]

with_day : ℕ → Fields → Fields
with_day d f = record f { day = d }

-- `setUTCDate` and `setUTCMonth` to a date of the calendar give that date, at the same time of day.
pub fields-set_utc_date :
    (t d : ℕ) (f : Fields)
    → fields t ≡ f
    → 1 ≤ d
    → d ≤ month_length (is_leap f.year) f.month
    → fields (set_utc_date t d) ≡ record f { day = d }
unfolding set_utc_date with_day
fields-set_utc_date t d f e p q =
    fields-make_date (make_day (fields t).year (fields t).month d) t
    ∙ fields_of_day-make_day (record (fields t) { day = d })
        (record {
          month_lt = (fields-IsCivil t).0.month_lt;
          day_pos = p;
          day_le = subst (λ g. d ≤ month_length (is_leap g.year) g.month) (sym e) q;
        })
    ∙ ap (with_day d) e

-- The month after `m`, which may be past the end of the year.
pub fields-set_utc_month :
    (t m : ℕ) (f : Fields)
    → fields t ≡ f
    → 1 ≤ f.day
    → f.day ≤ 28
    → fields (set_utc_month t m) ≡ record { year = f.year + m / 12; month = m % 12; day = f.day }
unfolding set_utc_month
fields-set_utc_month t m f e p q =
    fields-make_date (make_day (fields t).year m (fields t).day) t
    ∙ ap (λ g. fields_of_day (make_day g.year m g.day)) e
    ∙ ap fields_of_day (make_day-carry f.year m f.day)
    ∙ fields_of_day-make_day (record { year = f.year + m / 12; month = m % 12; day = f.day })
        (record {
          month_lt = omega arith;
          day_pos = p;
          day_le = omega (arith, month_length-bounds (is_leap (f.year + m / 12)) (m % 12));
        })

pub time-set_utc_date : (t d : ℕ) → time_within_day (set_utc_date t d) ≡ time_within_day t
unfolding set_utc_date make_date
time-set_utc_date t d = omega arith

pub time-set_utc_month : (t m : ℕ) → time_within_day (set_utc_month t m) ≡ time_within_day t
unfolding set_utc_month make_date
time-set_utc_month t m = omega arith
