-- ===== src/Calendar/Tests.antt =====
-- A leap day, and an evening.
use firefly_zephyr.Base.{ℕ, ◌+◌, ◌^◌, ◌≤◌, ◌<◌, ◌≡◌, refl, some, arith}
use firefly_zephyr.Calendar.{
  Calendar, days_of, time_of, to_time, from_time, get_12_hour, leap, nleap, ydays, ymdays,
}
use firefly_zephyr.Calendar.Times.{
  IsDate, day_number, hour_of, to_time-from_time, from_time-IsDate, get_12_hour-recovers,
}
use firefly_zephyr.Calendar.Unique.{from_time-to_time}

abbrev leap_day : Calendar
leap_day = record { year = 124; wday = 4; month = 1; mday = 29; hour = 19; min = 30; sec = 5 }

leap_day-IsDate : IsDate leap_day
unfolding time_of days_of leap nleap ydays ymdays
leap_day-IsDate = record {
  from_1970 = omega arith;
  month_in = omega arith;
  day_from = omega arith;
  day_in = omega arith;
  hour_in = omega arith;
  min_in = omega arith;
  sec_in = omega arith;
  weekday = refl;
}

to_time-from_time_example :
    (c : Calendar) × (from_time 1709235005 ≡ some c) × (to_time c ≡ some 1709235005)
to_time-from_time_example = to_time-from_time 1709235005 (omega arith)

leap_day_counts : day_number leap_day + 4 < 2 ^ 31
unfolding nleap leap ydays
leap_day_counts = omega arith

from_time-to_time_example : (t : ℕ) × (to_time leap_day ≡ some t) × (from_time t ≡ some leap_day)
from_time-to_time_example = from_time-to_time leap_day leap_day-IsDate leap_day_counts

from_time-IsDate_example : (c : Calendar) × (from_time 1709235005 ≡ some c) × IsDate c
from_time-IsDate_example = from_time-IsDate 1709235005 (omega arith)

get_12_hour-recovers_example :
    (1 ≤ (get_12_hour leap_day).hour)
    × ((get_12_hour leap_day).hour ≤ 12)
    × (19 ≡ hour_of (get_12_hour leap_day))
get_12_hour-recovers_example = get_12_hour-recovers leap_day (omega arith)
