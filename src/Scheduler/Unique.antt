-- ===== src/Scheduler/Unique.antt =====
-- The number of days of a date determines the date, by the calendar of the JavaScript `Date` in UTC.
use ancore.Common.{ℕ, zero, suc, ◌+◌, ◌-◌, ◌≤◌, ◌<◌, Bool, ◌≡◌, ap, sym, ◌∙◌, subst, arith}
use native.Mathlib.Decide.{dec_lt}
use ancore.Scheduler.Date.{
  is_leap, month_length, year_length, days_before_year, days_before_month, make_day, Fields,
  fields_of_day,
}
use ancore.Scheduler.Civil.{IsCivil, days_before_month-year, make_day_lem, make_day-fields_of_day}

-- Years and months do not overlap, so that a day has the fields of one date only.
days_before_year_mono :
    (k a : ℕ) → days_before_year a + year_length (is_leap a) ≤ days_before_year (suc (a + k))
unfolding days_before_year
days_before_year_mono zero a = let e : a + 0 ≡ a = omega arith in rw e (omega arith)
days_before_year_mono (suc k) a =
    let e : a + suc k ≡ suc (a + k) = omega arith in rw e (omega (arith, days_before_year_mono k a))

days_before_month_mono :
    (leap : Bool) (k a : ℕ)
    → days_before_month leap a + month_length leap a ≤ days_before_month leap (suc (a + k))
unfolding days_before_month
days_before_month_mono leap zero a = let e : a + 0 ≡ a = omega arith in rw e (omega arith)
days_before_month_mono leap (suc k) a =
    let e : a + suc k ≡ suc (a + k) = omega arith in
    rw e (omega (arith, days_before_month_mono leap k a))

year_lt : (a b : ℕ) → a < b → days_before_year a + year_length (is_leap a) ≤ days_before_year b
year_lt a b h =
    let e : suc (a + (b - a - 1)) ≡ b = omega arith in
    subst (λ k. days_before_year a + year_length (is_leap a) ≤ days_before_year k) e
      (days_before_year_mono (b - a - 1) a)

month_lt :
    (leap : Bool) (a b : ℕ)
    → a < b
    → days_before_month leap a + month_length leap a ≤ days_before_month leap b
month_lt leap a b h =
    let e : suc (a + (b - a - 1)) ≡ b = omega arith in
    subst (λ k. days_before_month leap a + month_length leap a ≤ days_before_month leap k) e
      (days_before_month_mono leap (b - a - 1) a)

year_unique :
    (a r b s : ℕ)
    → days_before_year a + r ≡ days_before_year b + s
    → r < year_length (is_leap a)
    → s < year_length (is_leap b)
    → a ≡ b
year_unique a r b s e p q = elim (dec_lt a b) [
  | yes h ↦ absurd (omega (arith, year_lt a b h))
  | no h ↦ elim (dec_lt b a) [ yes k ↦ absurd (omega (arith, year_lt b a k)) | no k ↦ omega arith ]
]

month_unique :
    (leap : Bool) (a d b e : ℕ)
    → days_before_month leap a + d ≡ days_before_month leap b + e
    → 1 ≤ d
    → d ≤ month_length leap a
    → 1 ≤ e
    → e ≤ month_length leap b
    → a ≡ b
month_unique leap a d b e h p q r s = elim (dec_lt a b) [
  | yes l ↦ absurd (omega (arith, month_lt leap a b l))
  | no l ↦ elim (dec_lt b a) [
    | yes k ↦ absurd (omega (arith, month_lt leap b a k))
    | no k ↦ omega arith
  ]
]

-- The day of a date lies in its year.
day_of_year-lt :
    (leap : Bool) (m d : ℕ)
    → m < 12
    → 1 ≤ d
    → d ≤ month_length leap m
    → days_before_month leap m + d ≤ year_length leap
day_of_year-lt leap m d h p q = elim (dec_lt m 11) [
  | yes l ↦ omega (arith, month_lt leap m 12 h, days_before_month-year leap)
  | no l ↦ omega (arith, month_lt leap m 12 h, days_before_month-year leap)
]

same_year :
    (f g : Fields)
    → IsCivil f
    → IsCivil g
    → make_day f.year f.month f.day ≡ make_day g.year g.month g.day
    → f.year ≡ g.year
same_year f g v w e =
    year_unique f.year (days_before_month (is_leap f.year) f.month + f.day - 1) g.year
      (days_before_month (is_leap g.year) g.month + g.day - 1)
      (omega (
        arith,
        e,
        make_day_lem f.year f.month f.day v.month_lt,
        make_day_lem g.year g.month g.day w.month_lt,
      ))
      (omega (arith, day_of_year-lt (is_leap f.year) f.month f.day v.month_lt v.day_pos v.day_le))
      (omega (arith, day_of_year-lt (is_leap g.year) g.month g.day w.month_lt w.day_pos w.day_le))

same_month :
    (y m d n e : ℕ)
    → m < 12
    → n < 12
    → 1 ≤ d
    → d ≤ month_length (is_leap y) m
    → 1 ≤ e
    → e ≤ month_length (is_leap y) n
    → make_day y m d ≡ make_day y n e
    → (m ≡ n) × (d ≡ e)
same_month y m d n e p q r s t u h =
    let count = make_day_lem y m d p in
    let count' = make_day_lem y n e q in
    let month : m ≡ n =
      month_unique (is_leap y) m d n e (omega (arith, h, count, count')) r s t u in
    (month, omega (arith, h, count, count', ap (days_before_month (is_leap y)) month))

-- Two dates of the calendar with one day are one.
make_day-injective :
    (f g : Fields)
    → IsCivil f
    → IsCivil g
    → make_day f.year f.month f.day ≡ make_day g.year g.month g.day
    → f ≡ g
make_day-injective f g v w e =
    let year = same_year f g v w e in
    let (month, day) =
      same_month f.year f.month f.day g.month g.day v.month_lt w.month_lt v.day_pos v.day_le
        w.day_pos (subst (λ y. g.day ≤ month_length (is_leap y) g.month) (sym year) w.day_le)
        (e ∙ ap (λ y. make_day y g.month g.day) (sym year)) in
    λ i. record { year = year i; month = month i; day = day i }

-- A date of the calendar is what the fields of its day say.
pub fields_of_day-make_day :
    (f : Fields) → IsCivil f → fields_of_day (make_day f.year f.month f.day) ≡ f
fields_of_day-make_day f v =
    let (civil, back) = make_day-fields_of_day (make_day f.year f.month f.day) in
    make_day-injective (fields_of_day (make_day f.year f.month f.day)) f civil v back
