-- ===== src/Dates.antt =====
-- Calendar dates as common/services/capitated/capitated_batch_processor.py uses `datetime.date`:
-- comparison, `replace(day=1)`, `_add_month`, `_end_of_month` and `+ timedelta(days=n)`.
-- Python's last year, 9999, is not enforced.
pub mod Bounds
mod Tests
use yastubo_python.Prelude.{
  ℕ, zero, suc, ◌+◌, ◌-◌, ◌%◌, Bool, true, false, ◌&&◌, ◌||◌, not, ltb, leb, ◌==◌, if◌then◌else◌,
}

pub record Date : Type 0 where
  pub year : ℕ
  pub month : ℕ
  pub day : ℕ

-- `a < b` of dates
abbrev pub date_ltb : Date → Date → Bool
date_ltb a b =
    ltb a.year b.year
    || a.year == b.year && (ltb a.month b.month || a.month == b.month && ltb a.day b.day)

-- `a <= b` of dates
abbrev pub date_leb : Date → Date → Bool
date_leb a b = not (date_ltb b a)

abbrev pub date_eq : Date → Date → Bool
date_eq a b = a.year == b.year && (a.month == b.month && a.day == b.day)

abbrev pub is_leap : ℕ → Bool
is_leap y = y % 4 == 0 && not (y % 100 == 0) || y % 400 == 0

unfoldable pub days_in_month : ℕ → ℕ → ℕ
days_in_month y m =
    if m == 2
    then (if is_leap y then 29 else 28)
    else if m == 4 || m == 6 || m == 9 || m == 11
    then 30
    else 31

-- `d + timedelta(days=1)`
unfoldable pub next_day : Date → Date
next_day d =
    if ltb d.day (days_in_month d.year d.month)
    then record d { day = d.day + 1 }
    else if d.month == 12
    then record { year = d.year + 1; month = 1; day = 1 }
    else record { year = d.year; month = d.month + 1; day = 1 }

-- `d - timedelta(days=1)`
unfoldable pub prev_day : Date → Date
prev_day d =
    if ltb 1 d.day
    then record d { day = d.day - 1 }
    else if d.month == 1
    then record { year = d.year - 1; month = 12; day = days_in_month (d.year - 1) 12 }
    else record { year = d.year; month = d.month - 1; day = days_in_month d.year (d.month - 1) }

-- `d + timedelta(days=n)`
unfoldable pub add_days : ℕ → Date → Date
unfolding next_day days_in_month
add_days zero d = d
add_days (suc n) d = add_days n (next_day d)

-- `_normalize_coverage_month`
unfoldable pub normalize_coverage_month : Date → Date
normalize_coverage_month d = record d { day = 1 }

-- `_add_month`
unfoldable pub add_month : Date → Date
add_month d =
    if d.month == 12
    then record { year = d.year + 1; month = 1; day = 1 }
    else record { year = d.year; month = d.month + 1; day = 1 }

-- `_end_of_month`
unfoldable pub end_of_month : Date → Date
unfolding add_month prev_day days_in_month
end_of_month d = prev_day (add_month d)
