-- ===== src/Calendar/Times.antt =====
-- Times and dates are two ways to say the same.
use mathlib.Core.Path.{subst}
use firefly_zephyr.Base.{
  ℕ, ◌+◌, ◌-◌, ◌*◌, ◌/◌, ◌%◌, ◌^◌, ◌≤◌, ◌<◌, ◌≡◌, refl, sym, ap, ◌∙◌, Bool, true, false, some, ◌&&◌,
  ltb, if◌then◌else◌, arith,
}
use firefly_zephyr.Calendar.{
  Calendar, am, pm, Calendar12Hour, leap, nleap, ydays, days_of, time_of, fits, to_time, yearsize,
  ymdays, year_loop, month_loop, date_of, from_time, get_12_hour,
}
use firefly_zephyr.Calendar.Days.{
  days_before, month_start, offset_of, size_of, InYear, InMonth, year_loop-InYear,
  month_loop-InMonth,
}

abbrev year_of : ℕ → ℕ × ℕ
year_of t = year_loop (t / 86400 + 1) (t / 86400) 1970

abbrev month_of : ℕ → ℕ × ℕ
month_of t = month_loop 12 (offset_of (leap (year_of t).1)) (year_of t).0 0

from_zero : (day : ℕ) → days_before 1970 + day ≡ day
unfolding nleap
from_zero day = omega arith

from_january : (is_leap : Bool) (day : ℕ) → month_start is_leap 0 + day ≡ day
unfolding ydays
from_january is_leap day = omega arith

pub year_of-InYear : (t : ℕ) → InYear (t / 86400) (year_of t)
year_of-InYear t =
    subst (λ d. InYear d (year_of t)) (from_zero (t / 86400))
      (year_loop-InYear (t / 86400 + 1) (t / 86400) 1970 (omega arith) (omega arith))

pub month_of-InMonth : (t : ℕ) → InMonth (leap (year_of t).1) (year_of t).0 (month_of t)
unfolding yearsize
month_of-InMonth t =
    let is_leap = leap (year_of t).1 in
    let day = (year_of t).0 in
    let e = from_january is_leap day in
    subst (λ d. InMonth is_leap d (month_of t)) e
      (month_loop-InMonth is_leap 12 day 0 refl
        (subst (λ d. d < size_of is_leap) (sym e) (year_of-InYear t).in_year))

-- The fields of a date from 1970 on.
pub record IsDate (c : Calendar) : Type 0 where
  pub from_1970 : 70 ≤ c.year
  pub month_in : c.month < 12
  pub day_from : 1 ≤ c.mday
  pub day_in : c.mday ≤ ymdays (offset_of (leap (c.year + 1900)) + c.month)
  pub hour_in : c.hour < 24
  pub min_in : c.min < 60
  pub sec_in : c.sec < 60
  pub weekday : c.wday ≡ (time_of c / 86400 + 4) % 7

-- The hour that a clock of twelve hours means.
abbrev pub hour_of : Calendar12Hour → ℕ
hour_of h = h.hour % 12 + (elim (h.meridiem) [ am ↦ 0 | pm ↦ 12 ])

-- The days, and the seconds of the day.
abbrev pub day_number : Calendar → ℕ
day_number c =
    days_before (c.year + 1900) + (month_start (leap (c.year + 1900)) c.month + (c.mday - 1))

abbrev pub day_clock : Calendar → ℕ
day_clock c = 3600 * c.hour + 60 * c.min + c.sec

count :
    (b : Bool) (d m y n : ℕ)
    → (if b then d + m + 1 else d + m) + y + n ≡ y + n + ((if b then m + 1 else m) + d)
count true d m y n = omega arith
count false d m y n = omega arith

days_of_lem : (c : Calendar) → days_of c ≡ day_number c
unfolding days_of
days_of_lem c = count (ltb 1 c.month && leap (c.year + 1900)) _ _ _ _

pub time_of_lem : (c : Calendar) → time_of c ≡ 86400 * day_number c + day_clock c
unfolding time_of
time_of_lem c = omega (arith, days_of_lem c)

date_of-day_number : (t : ℕ) → day_number (date_of t) ≡ t / 86400
unfolding date_of
date_of-day_number t =
    let y = year_of-InYear t in
    let m = month_of-InMonth t in
    let e : (year_of t).1 - 1900 + 1900 ≡ (year_of t).1 = omega (arith, y.from_1970) in
    ap (λ k. days_before k + (month_start (leap k) (month_of t).1 + ((month_of t).0 + 1 - 1))) e
    ∙ omega (arith, y.counts, m.counts)

date_of-day_clock : (t : ℕ) → day_clock (date_of t) ≡ t % 86400
unfolding date_of
date_of-day_clock t = omega arith

pub time_of-date_of : (t : ℕ) → time_of (date_of t) ≡ t
time_of-date_of t =
    time_of_lem (date_of t) ∙ omega (arith, date_of-day_number t, date_of-day_clock t)

pub date_of-IsDate : (t : ℕ) → IsDate (date_of t)
unfolding date_of
date_of-IsDate t =
    let y = year_of-InYear t in
    let m = month_of-InMonth t in
    let e : (year_of t).1 ≡ (year_of t).1 - 1900 + 1900 = omega (arith, y.from_1970) in
    record {
      from_1970 = omega (arith, y.from_1970);
      month_in = m.in_year;
      day_from = omega arith;
      day_in =
          subst (λ k. (month_of t).0 + 1 ≤ ymdays (offset_of (leap k) + (month_of t).1)) e
            (omega (arith, m.in_month));
      hour_in = omega arith;
      min_in = omega arith;
      sec_in = omega arith;
      weekday = ap (λ k. (k / 86400 + 4) % 7) (sym (time_of-date_of t));
    }

pub chosen : {A : Type 0} (b : Bool) (x y : A) → b ≡ true → (if b then x else y) ≡ x
chosen b x y e = rw e refl

pub from_time_lem : (t : ℕ) → t / 86400 + 4 < 2 ^ 31 → from_time t ≡ some (date_of t)
unfolding from_time
from_time_lem t h = chosen (ltb (t / 86400 + 4) (2 ^ 31)) _ _ (ground (arith, h))

-- A date whose day can be counted has small fields.
fits_lem :
    (c : Calendar) → IsDate c → days_of c ≡ day_number c → day_number c < 2 ^ 31 → fits c ≡ true
unfolding fits
fits_lem c p e h =
    let year_lt : c.year + 1900 < 2 ^ 31 = omega (arith, h, p.from_1970) in
    let hour_lt : 3600 * c.hour < 2 ^ 31 = omega (arith, p.hour_in) in
    let min_lt : 60 * c.min < 2 ^ 31 = omega (arith, p.min_in) in
    let sec_lt : c.sec < 2 ^ 31 = omega (arith, p.sec_in) in
    ground (arith, year_lt, e, h, p.from_1970, p.day_from, hour_lt, min_lt, sec_lt)

pub to_time_lem : (c : Calendar) → IsDate c → day_number c < 2 ^ 31 → to_time c ≡ some (time_of c)
unfolding to_time
to_time_lem c p h = chosen (fits c) _ _ (fits_lem c p (days_of_lem c) h)

-- `fd_calendar_to_time` gives back each time from 1970 on, of a day with a number of at most 2 ^
-- 31 - 5, from the date that `fd_calendar_from_time` makes of it; no number overflows on the way.
pub to_time-from_time :
    (t : ℕ)
    → t / 86400 + 4 < 2 ^ 31
    → (c : Calendar) × (from_time t ≡ some c) × (to_time c ≡ some t)
to_time-from_time t h = (
  date_of t,
  from_time_lem t h,
  to_time_lem (date_of t) (date_of-IsDate t) (omega (arith, date_of-day_number t, h))
      ∙ ap some (time_of-date_of t),
)

-- What `fd_calendar_from_time` makes of a time from 1970 on, of a day with a number of at most 2
-- ^ 31 - 5, is a date from 1970 on: the month is below 12, the day lies from 1 to the length of
-- that month in that year, hour, minute and second lie in their ranges, and the weekday counts on
-- from the Thursday of the first day.
pub from_time-IsDate :
    (t : ℕ) → t / 86400 + 4 < 2 ^ 31 → (c : Calendar) × (from_time t ≡ some c) × IsDate c
from_time-IsDate t h = (date_of t, from_time_lem t h, date_of-IsDate t)

-- `fd_calendar_get_12_hour` gives an hour from 1 to 12 for each of the 24, and with the half of
-- the day it tells which of them it was.
pub get_12_hour-recovers :
    (c : Calendar)
    → c.hour < 24
    → (1 ≤ (get_12_hour c).hour) × ((get_12_hour c).hour ≤ 12) × (c.hour ≡ hour_of (get_12_hour c))
unfolding get_12_hour
get_12_hour-recovers c p = ground (arith, p)
