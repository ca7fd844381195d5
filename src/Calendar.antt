-- ===== src/Calendar.antt =====
-- subsys/base/src/fd_calendar.c. `to_time` and `from_time` are `none` outside the times and dates
-- from 1970 on for which no `int32_t` of the source overflows.
pub mod Days
pub mod Times
pub mod Unique
mod Tests
use firefly_zephyr.Base.{
  ℕ, zero, suc, ◌+◌, ◌-◌, ◌*◌, ◌/◌, ◌%◌, ◌^◌, Bool, true, false, not, ◌&&◌, ◌||◌, Option, none,
  some, List, [], ◌∷◌, ltb, leb, ◌==◌, if◌then◌else◌, get_or,
}

-- `fd_calendar_t`
pub record Calendar : Type 0 where
  pub year : ℕ
  pub wday : ℕ
  pub month : ℕ
  pub mday : ℕ
  pub hour : ℕ
  pub min : ℕ
  pub sec : ℕ

pub data Meridiem : Type 0 where
  am pm : Meridiem

-- `fd_calendar_12_hour_t`, with 'a' and 'p' as `am` and `pm`.
pub record Calendar12Hour : Type 0 where
  pub meridiem : Meridiem
  pub hour : ℕ

unfoldable pub leap : ℕ → Bool
leap y = ((y % 4 == 0) && not (y % 100 == 0)) || (y % 400 == 0)

unfoldable pub nleap : ℕ → ℕ
nleap y = (y - 1969) / 4 - (y - 1901) / 100 + (y - 1601) / 400

unfoldable pub ydays : ℕ → ℕ
ydays m = get_or (0 ∷ 31 ∷ 59 ∷ 90 ∷ 120 ∷ 151 ∷ 181 ∷ 212 ∷ 243 ∷ 273 ∷ 304 ∷ 334 ∷ 365 ∷ []) m 0

unfoldable pub days_of : Calendar → ℕ
unfolding leap nleap ydays
days_of calendar =
    let years = calendar.year + 1900 in
    let days = calendar.mday - 1 + ydays calendar.month in
    let days' = if ltb 1 calendar.month && leap years then days + 1 else days in
    days' + 365 * (years - 1970) + nleap years

unfoldable pub time_of : Calendar → ℕ
unfolding days_of
time_of calendar =
    86400 * days_of calendar + 3600 * calendar.hour + 60 * calendar.min + calendar.sec

-- No `int32_t` of `fd_calendar_to_time` is negative or overflows.
unfoldable pub fits : Calendar → Bool
unfolding days_of
fits calendar =
    leb 1 calendar.mday
    && (leb 70 calendar.year
        && (ltb (calendar.year + 1900) (2 ^ 31)
            && (ltb (days_of calendar) (2 ^ 31)
                && (ltb (3600 * calendar.hour) (2 ^ 31)
                    && (ltb (60 * calendar.min) (2 ^ 31) && ltb calendar.sec (2 ^ 31))))))

-- `none` for what is not modelled: a date before 1970, or a number that overflows.
unfoldable pub to_time : Calendar → Option ℕ
unfolding fits time_of
to_time calendar = if fits calendar then some (time_of calendar) else none

unfoldable pub yearsize : ℕ → ℕ
unfolding leap
yearsize year = if leap year then 366 else 365

-- The months of a common year, then those of a leap year.
unfoldable pub ymdays : ℕ → ℕ
ymdays ym =
    get_or
      (31 ∷ 28 ∷ 31 ∷ 30 ∷ 31 ∷ 30 ∷ 31 ∷ 31 ∷ 30 ∷ 31 ∷ 30 ∷ 31 ∷ 31 ∷ 29 ∷ 31 ∷ 30 ∷ 31 ∷ 30 ∷ 31
        ∷ 31 ∷ 30 ∷ 31 ∷ 30 ∷ 31 ∷ [])
      ym 31

-- The loops of `fd_calendar_from_time` return `dayno` with the year, or the month.
unfoldable pub year_loop : ℕ → ℕ → ℕ → ℕ × ℕ
unfolding yearsize
year_loop zero dayno year = (dayno, year)
year_loop (suc fuel) dayno year =
    let later = year_loop fuel (dayno - yearsize year) (year + 1) in
    if leb (yearsize year) dayno then later else (dayno, year)

unfoldable pub month_loop : ℕ → ℕ → ℕ → ℕ → ℕ × ℕ
unfolding ymdays
month_loop zero offset dayno month = (dayno, month)
month_loop (suc fuel) offset dayno month =
    let later = month_loop fuel offset (dayno - ymdays (offset + month)) (month + 1) in
    if leb (ymdays (offset + month)) dayno then later else (dayno, month)

-- A year has a day at least, and its months are twelve.
unfoldable pub date_of : ℕ → Calendar
unfolding year_loop month_loop leap
date_of time =
    let dayclock = time % 86400 in
    let day = time / 86400 in
    let (dayno, year) = year_loop (day + 1) day 1970 in
    let (rest, month) = month_loop 12 (if leap year then 12 else 0) dayno 0 in
    record {
      year = year - 1900;
      wday = (day + 4) % 7;
      month = month;
      mday = rest + 1;
      hour = dayclock / 3600;
      min = dayclock % 3600 / 60;
      sec = dayclock % 60;
    }

-- `none` for what is not modelled: days, and four more, that are too many for an `int32_t`.
unfoldable pub from_time : ℕ → Option Calendar
unfolding date_of
from_time time = if ltb (time / 86400 + 4) (2 ^ 31) then some (date_of time) else none

unfoldable pub get_12_hour : Calendar → Calendar12Hour
get_12_hour date_time =
    if date_time.hour == 0
    then record { meridiem = am; hour = 12 }
    else if ltb date_time.hour 12
    then record { meridiem = am; hour = date_time.hour }
    else if date_time.hour == 12
    then record { meridiem = pm; hour = 12 }
    else if ltb date_time.hour 24
    then record { meridiem = pm; hour = date_time.hour - 12 }
    else record { meridiem = am; hour = 0 }
