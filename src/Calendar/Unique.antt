-- ===== src/Calendar/Unique.antt =====
-- No time has two dates.
use mathlib.Core.Path.{subst}
use firefly_zephyr.Base.{
  ℕ, zero, suc, ◌+◌, ◌-◌, ◌/◌, ◌%◌, ◌^◌, some, ◌≤◌, ◌<◌, ◌≡◌, sym, ap, ◌∙◌, ◌⊎◌, inl, inr, arith,
}
use firefly_zephyr.Calendar.{Calendar, leap, time_of, to_time, yearsize, ymdays, date_of, from_time}
use firefly_zephyr.Calendar.Days.{
  days_before, month_start, offset_of, days_before-next, month_start-next, year_end,
}
use firefly_zephyr.Calendar.Times.{
  IsDate, day_number, day_clock, time_of_lem, time_of-date_of, date_of-IsDate, to_time_lem,
  from_time_lem,
}

trichotomy : (n m : ℕ) → (n < m) ⊎ ((n ≡ m) ⊎ (m < n))
trichotomy n m = ground arith

plus_zero : (n : ℕ) → n + 0 ≡ n
plus_zero n = omega arith

plus_suc : (n k : ℕ) → n + suc k ≡ n + k + 1
plus_suc n k = omega arith

-- Starts `f` of spans of `g` days, one behind the other.
module _ (f g : ℕ → ℕ) (lo hi : ℕ) (step : (n : ℕ) → lo ≤ n → n < hi → f (n + 1) ≡ f n + g n) where
  span-before : (k n : ℕ) → lo ≤ n → n + 1 + k ≤ hi → f n + g n ≤ f (n + 1 + k)
  span-before zero n p q = omega (arith, step n p (omega arith), ap f (plus_zero (n + 1)))
  span-before (suc k) n p q = omega (
    arith,
    span-before k n p (omega arith),
    step (n + 1 + k) (omega arith) (omega arith),
    ap f (plus_suc (n + 1) k),
  )

  span-order : (n m a b : ℕ) → lo ≤ n → n < m → m ≤ hi → a < g n → f n + a < f m + b
  span-order n m a b p lt q c =
      let e : n + 1 + (m - n - 1) ≡ m = omega arith in
      omega (arith, span-before (m - n - 1) n p (omega arith), ap f e, c)

  span_unique :
      (n m a b : ℕ)
      → lo ≤ n
      → n ≤ hi
      → lo ≤ m
      → m ≤ hi
      → a < g n
      → b < g m
      → f n + a ≡ f m + b
      → n ≡ m
  span_unique n m a b p p' q q' c d e = elim (trichotomy n m) [
    | inl lt ↦ absurd (omega (arith, span-order n m a b p lt q' c, e))
    | inr (inl same) ↦ same
    | inr (inr lt) ↦ absurd (omega (arith, span-order m n b a q lt p' d, e))
  ]

to_december : (m : ℕ) → m < 12 → m + 1 + (11 - m) ≡ 12
to_december m p = omega arith

clock_in : (c : Calendar) → IsDate c → day_clock c < 86400
clock_in c p = omega (arith, p.hour_in, p.min_in, p.sec_in)

module _ (c d : Calendar) (p : IsDate c) (q : IsDate d) where
  -- The days of a date lie in its year.
  day_of_year :
      (e : Calendar)
      → IsDate e
      → month_start (leap (e.year + 1900)) e.month + (e.mday - 1) < yearsize (e.year + 1900)
  unfolding yearsize
  day_of_year e h =
      let is_leap = leap (e.year + 1900) in
      omega (
        arith,
        year_end is_leap,
        h.day_from,
        h.day_in,
        span-before (month_start is_leap) (λ m. ymdays (offset_of is_leap + m)) 0 12
            (λ n _ lt. month_start-next is_leap n lt) (11 - e.month) e.month (omega arith)
            (omega (arith, h.month_in)),
        ap (month_start is_leap) (to_december e.month h.month_in),
      )

  same_day : time_of c ≡ time_of d → (day_number c ≡ day_number d) × (day_clock c ≡ day_clock d)
  same_day e =
      let a = clock_in c p in
      let b = clock_in d q in
      (
        omega (arith, e, time_of_lem c, time_of_lem d, a, b),
        omega (arith, e, time_of_lem c, time_of_lem d, a, b),
      )

  same_year : day_number c ≡ day_number d → c.year ≡ d.year
  same_year e = omega (
    arith,
    span_unique days_before yearsize 1970 (c.year + d.year + 1900) (λ n le _. days_before-next n le)
        (c.year + 1900) (d.year + 1900) _ _ (omega (arith, p.from_1970)) (omega arith)
        (omega (arith, q.from_1970)) (omega arith) (day_of_year c p) (day_of_year d q) e,
  )

  same_month : day_number c ≡ day_number d → (c.month ≡ d.month) × (c.mday ≡ d.mday)
  same_month e =
      let y = same_year e in
      let is_leap = leap (c.year + 1900) in
      let day_in : d.mday ≤ ymdays (offset_of is_leap + d.month) =
        subst (λ k. d.mday ≤ ymdays (offset_of (leap (k + 1900)) + d.month)) (sym y) q.day_in in
      let counts : month_start is_leap c.month + (c.mday - 1)
          ≡ month_start is_leap d.month + (d.mday - 1) =
        omega (
          arith,
          subst
              (λ k.
                day_number c
                ≡ days_before (k + 1900) + (month_start (leap (k + 1900)) d.month + (d.mday - 1)))
              (sym y) e,
        ) in
      let m =
        span_unique (month_start is_leap) (λ m. ymdays (offset_of is_leap + m)) 0 12
          (λ n _ lt. month_start-next is_leap n lt) c.month d.month _ _ (omega arith)
          (omega (arith, p.month_in)) (omega arith) (omega (arith, q.month_in))
          (omega (arith, p.day_from, p.day_in)) (omega (arith, q.day_from, day_in)) counts in
      (m, omega (arith, ap (month_start is_leap) m, counts, p.day_from, q.day_from))

  same_clock : day_clock c ≡ day_clock d → (c.hour ≡ d.hour) × (c.min ≡ d.min) × (c.sec ≡ d.sec)
  same_clock e = (
    omega (arith, e, p.min_in, q.min_in, p.sec_in, q.sec_in),
    omega (arith, e, p.min_in, q.min_in, p.sec_in, q.sec_in),
    omega (arith, e, p.min_in, q.min_in, p.sec_in, q.sec_in),
  )

  pub time_of_unique : time_of c ≡ time_of d → c ≡ d
  time_of_unique e =
      let (day, clock) = same_day e in
      let y = same_year day in
      let (m, md) = same_month day in
      let (h, i, s) = same_clock clock in
      let w : c.wday ≡ d.wday = p.weekday ∙ ap (λ k. (k / 86400 + 4) % 7) e ∙ sym q.weekday in cc

date_of-time_of : (c : Calendar) → IsDate c → date_of (time_of c) ≡ c
date_of-time_of c p =
    time_of_unique (date_of (time_of c)) c (date_of-IsDate (time_of c)) p
      (time_of-date_of (time_of c))

-- `fd_calendar_from_time` gives back each date from 1970 on, of a day with a number of at most 2
-- ^ 31 - 5, whose fields lie in the ranges of fd_calendar.h, whose day lies in its month, and
-- whose weekday is right, from what `fd_calendar_to_time` makes of it; no number overflows on the
-- way.
pub from_time-to_time :
    (c : Calendar)
    → IsDate c
    → day_number c + 4 < 2 ^ 31
    → (t : ℕ) × (to_time c ≡ some t) × (from_time t ≡ some c)
from_time-to_time c p h = (
  time_of c,
  to_time_lem c p (omega (arith, h)),
  from_time_lem (time_of c) (omega (arith, time_of_lem c, clock_in c p, h))
      ∙ ap some (date_of-time_of c p),
)
