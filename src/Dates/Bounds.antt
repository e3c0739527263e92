-- ===== src/Dates/Bounds.antt =====
-- _add_month and _end_of_month of common/services/capitated/capitated_batch_processor.py.
use yastubo_python.Prelude.{◌≤◌, ◌≡◌, true, arith}
use yastubo_python.Dates.{Date, date_leb, days_in_month, next_day, add_month, end_of_month}

pub record IsDate (d : Date) : Type 0 where
  pub first_month : 1 ≤ d.month
  pub last_month : d.month ≤ 12
  pub first_day : 1 ≤ d.day
  pub last_day : d.day ≤ days_in_month d.year d.month

pub end_of_month_lem :
    (d : Date)
    → IsDate d
    → end_of_month d ≡ record { year = d.year; month = d.month; day = days_in_month d.year d.month }
unfolding end_of_month
end_of_month_lem d h = ground arith

-- For a valid date, the end of its month is a day of that month which is not before the date,
-- and the day after it is the first of the next month.
pub end_of_month_bounds :
    (d : Date)
    → IsDate d
    → (date_leb d (end_of_month d) ≡ true)
      × (next_day (end_of_month d) ≡ add_month d)
      × ((end_of_month d).month ≡ d.month)
      × ((end_of_month d).year ≡ d.year)
unfolding end_of_month next_day
end_of_month_bounds d h = ground arith
