-- ===== src/Calendar/Days.antt =====
-- Days counted from 1970, and the calendar's way through years and months.
use mathlib.Core.Path.{subst}
use firefly_zephyr.Base.{
  ℕ, zero, suc, ◌+◌, ◌-◌, ◌*◌, ◌≤◌, ◌<◌, ◌≡◌, refl, ap, Bool, true, false, ◌&&◌, ltb, leb,
  if◌then◌else◌, arith, ◌⊎◌, inl, inr,
}
use firefly_zephyr.Calendar.{leap, nleap, ydays, yearsize, ymdays, year_loop, month_loop}

-- The days from 1970 to a year, and from the year to a month.
abbrev pub days_before : ℕ → ℕ
days_before y = 365 * (y - 1970) + nleap y

abbrev pub month_start : Bool → ℕ → ℕ
month_start is_leap m = if ltb 1 m && is_leap then ydays m + 1 else ydays m

abbrev pub offset_of : Bool → ℕ
offset_of is_leap = if is_leap then 12 else 0

abbrev pub size_of : Bool → ℕ
size_of is_leap = if is_leap then 366 else 365

pub days_before-next : (y : ℕ) → 1970 ≤ y → days_before (y + 1) ≡ days_before y + yearsize y
unfolding nleap yearsize leap
days_before-next y p = ground arith

pub month_start-next :
    (is_leap : Bool) (m : ℕ)
    → m < 12
    → month_start is_leap (m + 1) ≡ month_start is_leap m + ymdays (offset_of is_leap + m)
unfolding ydays ymdays
month_start-next true zero p = refl
month_start-next true (suc zero) p = refl
month_start-next true (suc (suc zero)) p = refl
month_start-next true (suc (suc (suc zero))) p = refl
month_start-next true (suc (suc (suc (suc zero)))) p = refl
month_start-next true (suc (suc (suc (suc (suc zero))))) p = refl
month_start-next true (suc (suc (suc (suc (suc (suc zero)))))) p = refl
month_start-next true (suc (suc (suc (suc (suc (suc (suc zero))))))) p = refl
month_start-next true (suc (suc (suc (suc (suc (suc (suc (suc zero)))))))) p = refl
month_start-next true (suc (suc (suc (suc (suc (suc (suc (suc (suc zero))))))))) p = refl
month_start-next true (suc (suc (suc (suc (suc (suc (suc (suc (suc (suc zero)))))))))) p = refl
month_start-next true (suc (suc (suc (suc (suc (suc (suc (suc (suc (suc (suc zero))))))))))) p =
    refl
month_start-next false zero p = refl
month_start-next false (suc zero) p = refl
month_start-next false (suc (suc zero)) p = refl
month_start-next false (suc (suc (suc zero))) p = refl
month_start-next false (suc (suc (suc (suc zero)))) p = refl
month_start-next false (suc (suc (suc (suc (suc zero))))) p = refl
month_start-next false (suc (suc (suc (suc (suc (suc zero)))))) p = refl
month_start-next false (suc (suc (suc (suc (suc (suc (suc zero))))))) p = refl
month_start-next false (suc (suc (suc (suc (suc (suc (suc (suc zero)))))))) p = refl
month_start-next false (suc (suc (suc (suc (suc (suc (suc (suc (suc zero))))))))) p = refl
month_start-next false (suc (suc (suc (suc (suc (suc (suc (suc (suc (suc zero)))))))))) p = refl
month_start-next false (suc (suc (suc (suc (suc (suc (suc (suc (suc (suc (suc zero))))))))))) p =
    refl
month_start-next true (suc (suc (suc (suc (suc (suc (suc (suc (suc (suc (suc (suc m)))))))))))) p =
    absurd (omega arith)
month_start-next false (suc (suc (suc (suc (suc (suc (suc (suc (suc (suc (suc (suc m)))))))))))) p =
    absurd (omega arith)

-- A day in a year.
pub record InYear (day : ℕ) (r : ℕ × ℕ) : Type 0 where
  pub counts : days_before r.1 + r.0 ≡ day
  pub in_year : r.0 < yearsize r.1
  pub from_1970 : 1970 ≤ r.1

order_cases : (m n : ℕ) → ((leb m n ≡ true) × (m ≤ n)) ⊎ ((leb m n ≡ false) × (n < m))
order_cases m n = ground arith

yearsize-pos : (y : ℕ) → 0 < yearsize y
unfolding yearsize
yearsize-pos y = ground arith

pub year_loop-InYear :
    (fuel dayno year : ℕ)
    → dayno < fuel
    → 1970 ≤ year
    → InYear (days_before year + dayno) (year_loop fuel dayno year)
unfolding year_loop
year_loop-InYear zero dayno year p q = absurd (omega arith)
year_loop-InYear (suc fuel) dayno year p q =
    let e = days_before-next year q in
    let later = year_loop-InYear fuel (dayno - yearsize year) (year + 1) in
    elim (order_cases (yearsize year) dayno) [
      | inl (c, le) ↦ rw c (
          subst (λ n. InYear n (year_loop fuel (dayno - yearsize year) (year + 1)))
            (omega (arith, e, le)) (later (omega (arith, p, le, yearsize-pos year)) (omega arith)))
      | inr (c, lt) ↦ rw c record { counts = refl; in_year = lt; from_1970 = q }
    ]

pub year_end : (is_leap : Bool) → month_start is_leap 12 ≡ size_of is_leap
unfolding ydays
year_end true = refl
year_end false = refl

is_12 : (month : ℕ) → month + 0 ≡ 12 → month ≡ 12
is_12 month n = omega (arith, n)

-- A day in a month.
pub record InMonth (is_leap : Bool) (day : ℕ) (r : ℕ × ℕ) : Type 0 where
  pub counts : month_start is_leap r.1 + r.0 ≡ day
  pub in_month : r.0 < ymdays (offset_of is_leap + r.1)
  pub in_year : r.1 < 12

pub month_loop-InMonth :
    (is_leap : Bool) (fuel dayno month : ℕ)
    → month + fuel ≡ 12
    → month_start is_leap month + dayno < size_of is_leap
    → InMonth is_leap
        (month_start is_leap month + dayno)
        (month_loop fuel (offset_of is_leap) dayno month)
unfolding month_loop
month_loop-InMonth is_leap zero dayno month n p =
    absurd (omega (arith, ap (λ m. month_start is_leap m) (is_12 month n), year_end is_leap, p))
month_loop-InMonth is_leap (suc fuel) dayno month n p =
    let size = ymdays (offset_of is_leap + month) in
    let e = month_start-next is_leap month (omega (arith, n)) in
    elim (order_cases size dayno) [
      | inl (c, le) ↦ rw c (
          subst
            (λ k.
              InMonth is_leap k (month_loop fuel (offset_of is_leap) (dayno - size) (month + 1)))
            (omega (arith, e, le))
            (month_loop-InMonth is_leap fuel (dayno - size) (month + 1) (omega (arith, n))
              (omega (arith, e, le, p))))
      | inr (c, lt) ↦ rw c record { counts = refl; in_month = lt; in_year = omega (arith, n) }
    ]
