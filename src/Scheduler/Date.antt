-- ===== src/Scheduler/Date.antt =====
-- What services/relayer/src/scheduler/schedule-utils.ts uses of the JavaScript `Date` in UTC, after
-- the ECMAScript standard: a date is its number of milliseconds since 1970, and its fields come from
-- that number. Years count from 1970 and months from 0. Dates before 1970 are left out.
use ancore.Common.{
  ℕ, zero, suc, ◌+◌, ◌-◌, ◌*◌, ◌/◌, ◌%◌, Bool, true, false, ◌&&◌, ◌||◌, not, if◌then◌else◌, ltb,
  ◌==◌,
}

abbrev pub ms_per_day : ℕ
ms_per_day = 86400000

-- The year that is `y` years after 1970.
unfoldable pub is_leap : ℕ → Bool
is_leap y = (1970 + y) % 4 == 0 && (not ((1970 + y) % 100 == 0) || (1970 + y) % 400 == 0)

abbrev pub february : Bool → ℕ
february true = 29
february false = 28

abbrev pub month_length : Bool → ℕ → ℕ
month_length leap zero = 31
month_length leap (suc zero) = february leap
month_length leap (suc (suc zero)) = 31
month_length leap (suc (suc (suc zero))) = 30
month_length leap (suc (suc (suc (suc zero)))) = 31
month_length leap (suc (suc (suc (suc (suc zero))))) = 30
month_length leap (suc (suc (suc (suc (suc (suc zero)))))) = 31
month_length leap (suc (suc (suc (suc (suc (suc (suc zero))))))) = 31
month_length leap (suc (suc (suc (suc (suc (suc (suc (suc zero)))))))) = 30
month_length leap (suc (suc (suc (suc (suc (suc (suc (suc (suc zero))))))))) = 31
month_length leap (suc (suc (suc (suc (suc (suc (suc (suc (suc (suc zero)))))))))) = 30
month_length leap _ = 31

abbrev pub year_length : Bool → ℕ
year_length true = 366
year_length false = 365

unfoldable pub days_before_year : ℕ → ℕ
days_before_year zero = 0
days_before_year (suc y) = days_before_year y + year_length (is_leap y)

unfoldable pub days_before_month : Bool → ℕ → ℕ
days_before_month leap zero = 0
days_before_month leap (suc m) = days_before_month leap m + month_length leap m

-- `MakeDay` and `MakeDate` of the standard: a month past the last belongs to a later year, and a day
-- past the last, or the day 0, to another month.
unfoldable pub make_day : ℕ → ℕ → ℕ → ℕ
make_day y m d =
    let year = y + m / 12 in
    days_before_year year + days_before_month (is_leap year) (m % 12) + d - 1

unfoldable pub make_date : ℕ → ℕ → ℕ
make_date day time = day * ms_per_day + time

pub record Fields : Type 0 where
  pub year : ℕ
  pub month : ℕ
  pub day : ℕ

-- The month and day at `n` days into a year, from month `m` on.
unfoldable pub find_month : Bool → ℕ → ℕ → ℕ → ℕ × ℕ
find_month leap zero m n = (m, n + 1)
find_month leap (suc fuel) m n =
    let rest = find_month leap fuel (suc m) (n - month_length leap m) in
    if ltb n (month_length leap m) then (m, n + 1) else rest

-- The fields at `n` days from the start of the year `y` on.
unfoldable pub find_year : ℕ → ℕ → ℕ → ℕ × ℕ
find_year zero y n = (y, n)
find_year (suc fuel) y n =
    let rest = find_year fuel (suc y) (n - year_length (is_leap y)) in
    if ltb n (year_length (is_leap y)) then (y, n) else rest

unfoldable pub fields_of_day : ℕ → Fields
fields_of_day n =
    let (y, r) = find_year n 0 n in
    let (m, d) = find_month (is_leap y) 11 0 r in record { year = y; month = m; day = d }

unfoldable pub fields : ℕ → Fields
fields t = fields_of_day (t / ms_per_day)

-- The getters and setters.
abbrev pub get_utc_date : ℕ → ℕ
get_utc_date t = (fields t).day

abbrev pub get_utc_month : ℕ → ℕ
get_utc_month t = (fields t).month

abbrev pub get_utc_full_year : ℕ → ℕ
get_utc_full_year t = (fields t).year

abbrev pub time_within_day : ℕ → ℕ
time_within_day t = t % ms_per_day

unfoldable pub set_utc_date : ℕ → ℕ → ℕ
set_utc_date t d =
    make_date (make_day (get_utc_full_year t) (get_utc_month t) d) (time_within_day t)

unfoldable pub set_utc_month : ℕ → ℕ → ℕ
set_utc_month t m =
    make_date (make_day (get_utc_full_year t) m (get_utc_date t)) (time_within_day t)

-- `Date.UTC(year, month, date)`
unfoldable pub date_utc : ℕ → ℕ → ℕ → ℕ
date_utc y m d = make_date (make_day y m d) 0
