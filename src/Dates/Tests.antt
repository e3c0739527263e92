-- ===== src/Dates/Tests.antt =====
-- The theorem on months at a date, and the calendar at the end of February.
use yastubo_python.Prelude.{◌≡◌, refl, true, arith}
use yastubo_python.Dates.{
  Date, date_leb, days_in_month, next_day, add_month, end_of_month, prev_day,
}
use yastubo_python.Dates.Bounds.{IsDate, end_of_month_bounds}

abbrev leap_day : Date
leap_day = record { year = 2024; month = 2; day = 29 }

leap_day-IsDate : IsDate leap_day
unfolding days_in_month
leap_day-IsDate = record {
  first_month = omega arith;
  last_month = omega arith;
  first_day = omega arith;
  last_day = omega arith;
}

end_of_month_bounds_example :
    (date_leb leap_day (end_of_month leap_day) ≡ true)
    × (next_day (end_of_month leap_day) ≡ add_month leap_day)
    × ((end_of_month leap_day).month ≡ 2)
    × ((end_of_month leap_day).year ≡ 2024)
end_of_month_bounds_example = end_of_month_bounds leap_day leap_day-IsDate

february :
    end_of_month (record { year = 2023; month = 2; day = 1 })
    ≡ record { year = 2023; month = 2; day = 28 }
unfolding end_of_month prev_day days_in_month add_month
february = refl
