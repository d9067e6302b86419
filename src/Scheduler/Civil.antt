-- ===== src/Scheduler/Civil.antt =====
-- The fields of a date and its number of days determine one another.
use ancore.Common.{
  ℕ, zero, suc, ◌+◌, ◌-◌, ◌/◌, ◌%◌, ◌≤◌, ◌<◌, Bool, true, false, ◌≡◌, refl, ◌∙◌, subst, inl, inr,
  arith, ltb, Bool-cases,
}
use ancore.Scheduler.Date.{
  is_leap, month_length, year_length, days_before_year, days_before_month, make_day, Fields,
  find_month, find_year, fields_of_day,
}

-- A date that the calendar has.
pub record IsCivil (f : Fields) : Type 0 where
  pub month_lt : f.month < 12
  pub day_pos : 1 ≤ f.day
  pub day_le : f.day ≤ month_length (is_leap f.year) f.month

pub month_length-bounds :
    (leap : Bool) (m : ℕ) → (28 ≤ month_length leap m) × (month_length leap m ≤ 31)
month_length-bounds leap zero = omega arith
month_length-bounds true (suc zero) = omega arith
month_length-bounds false (suc zero) = omega arith
month_length-bounds leap (suc (suc zero)) = omega arith
month_length-bounds leap (suc (suc (suc zero))) = omega arith
month_length-bounds leap (suc (suc (suc (suc zero)))) = omega arith
month_length-bounds leap (suc (suc (suc (suc (suc zero))))) = omega arith
month_length-bounds leap (suc (suc (suc (suc (suc (suc zero)))))) = omega arith
month_length-bounds leap (suc (suc (suc (suc (suc (suc (suc zero))))))) = omega arith
month_length-bounds leap (suc (suc (suc (suc (suc (suc (suc (suc zero)))))))) = omega arith
month_length-bounds leap (suc (suc (suc (suc (suc (suc (suc (suc (suc zero))))))))) = omega arith
month_length-bounds leap (suc (suc (suc (suc (suc (suc (suc (suc (suc (suc zero)))))))))) =
    omega arith
month_length-bounds leap (suc (suc (suc (suc (suc (suc (suc (suc (suc (suc (suc m))))))))))) =
    omega arith

year_length-bounds : (leap : Bool) → (365 ≤ year_length leap) × (year_length leap ≤ 366)
year_length-bounds true = omega arith
year_length-bounds false = omega arith

pub days_before_month-year : (leap : Bool) → days_before_month leap 12 ≡ year_length leap
unfolding days_before_month
days_before_month-year true = refl
days_before_month-year false = refl

-- The search for the year keeps the count of days and ends within a year.
find_year_lem :
    (fuel y n : ℕ)
    → n ≤ fuel
    → (days_before_year (find_year fuel y n).0 + (find_year fuel y n).1 ≡ days_before_year y + n)
      × ((find_year fuel y n).1 < year_length (is_leap (find_year fuel y n).0))
unfolding find_year days_before_year
find_year_lem zero y n h = (refl, omega (arith, year_length-bounds (is_leap y)))
find_year_lem (suc fuel) y n h = elim (Bool-cases (ltb n (year_length (is_leap y)))) [
  | inl here ↦ rw here (refl, ground arith)
  | inr later ↦
      let b = year_length-bounds (is_leap y) in
      let i = find_year_lem fuel (suc y) (n - year_length (is_leap y)) (ground arith) in
      rw later (ground (arith, i), i.1)
]

december :
    (leap : Bool) (n : ℕ)
    → days_before_month leap 11 + n < year_length leap
    → n + 1 ≤ month_length leap 11
unfolding days_before_month
december true n h = omega arith
december false n h = omega arith

-- The search for the month does too, if the months left make up the year.
find_month_lem :
    (leap : Bool) (fuel m n : ℕ)
    → m + fuel ≡ 11
    → days_before_month leap m + n < year_length leap
    → (days_before_month leap (find_month leap fuel m n).0 + (find_month leap fuel m n).1
        ≡ days_before_month leap m + n + 1)
      × ((find_month leap fuel m n).0 < 12)
      × (1 ≤ (find_month leap fuel m n).1)
      × ((find_month leap fuel m n).1 ≤ month_length leap (find_month leap fuel m n).0)
unfolding find_month days_before_month
find_month_lem leap zero m n e h = (omega arith, omega arith, omega arith, last)
  where
    eleven : 11 ≡ m
    eleven = omega arith

    last : n + 1 ≤ month_length leap m
    last =
        subst (λ k. days_before_month leap k + n < year_length leap → n + 1 ≤ month_length leap k)
          eleven (december leap n) h
find_month_lem leap (suc fuel) m n e h = elim (Bool-cases (ltb n (month_length leap m))) [
  | inl here ↦ rw here (omega arith, omega arith, omega arith, ground arith)
  | inr later ↦
      let i =
        find_month_lem leap fuel (suc m) (n - month_length leap m) (omega arith) (ground arith) in
      rw later (ground (arith, i), i.1, i.2, i.3)
]

pub make_day_lem :
    (y m d : ℕ)
    → m < 12
    → make_day y m d ≡ days_before_year y + days_before_month (is_leap y) m + d - 1
unfolding make_day
make_day_lem y m d h =
    let year : y + m / 12 ≡ y = omega arith in
    let month : m % 12 ≡ m = omega arith in rw (year, month)

-- The fields of a day are a date of the calendar, and lead back to the day.
pub make_day-fields_of_day :
    (n : ℕ)
    → IsCivil (fields_of_day n)
      × (make_day (fields_of_day n).year (fields_of_day n).month (fields_of_day n).day ≡ n)
unfolding fields_of_day
make_day-fields_of_day n =
    let y = (find_year n 0 n).0 in
    let r = (find_year n 0 n).1 in
    let (total, within) = find_year_lem n 0 n (omega arith) in
    let (count, month, low, high) =
      find_month_lem (is_leap y) 11 0 r refl (within_year y r within) in
    (
      record { month_lt = month; day_pos = low; day_le = high },
      make_day_lem y _ _ month ∙ omega (arith, total, count, start, first (is_leap y)),
    )
  where
    start : days_before_year 0 ≡ 0
    start = unfold days_before_year in refl

    first : (leap : Bool) → days_before_month leap 0 ≡ 0
    first leap = unfold days_before_month in refl

    within_year :
        (y r : ℕ)
        → r < year_length (is_leap y)
        → days_before_month (is_leap y) 0 + r < year_length (is_leap y)
    within_year y r h = omega (arith, first (is_leap y))
