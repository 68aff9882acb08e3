-- ===== src/Stdlib/Dates/Moves.antt =====
-- `add_date_days` against the count of days.
use native.Mathlib.Decide.{dec_lt}
use whais.Prelude.{
  ℕ, zero, suc, ◌+◌, ◌-◌, ◌^◌, ◌≤◌, ◌<◌, ◌≡◌, refl, ap, sym, subst, ◌∙◌, ◌⊎◌, inl, inr, Bool, true,
  false, arith, ltb,
}
use whais.Stdlib.Dates.{
  ℤ, pos, negsuc, years_count, is_leap_year, days_to_month, day_of_date, find_month, Reached,
  reached, refused, outside, later_year, earlier_year, to_int32, add_days, reach_year, Date, date,
  date_of, add_date_days,
}
use whais.Stdlib.Dates.Years.{days_before, IsDay, Later, Earlier, later_year_lem, earlier_year_lem}
use whais.Stdlib.Dates.Months.{month_days, InMonth, find_month_lem}

pub record IsDate (year month day : ℕ) : Type 0 where
  pub inside : year < years_count
  pub first_month : 1 ≤ month
  pub last_month : month ≤ 12
  pub first : 0 < day
  pub last : day ≤ month_days (is_leap_year year) month

-- The number of a day, 1 being the first one of the table.
abbrev pub ordinal : ℕ → ℕ → ℕ → ℕ
ordinal year month day = days_before year + day_of_date (is_leap_year year) month day

-- Day `b` is that many days behind day `a`.
abbrev pub IsShift : ℤ → ℕ → ℕ → Type 0
IsShift (pos n) a b = b ≡ a + n
IsShift (negsuc n) a b = b + n + 1 ≡ a

-- The day is in front of the first one of the table.
abbrev pub IsEarly : ℤ → ℕ → Type 0
IsEarly (pos n) a = a + n < 1
IsEarly (negsuc n) a = a ≤ n + 1

-- The day is behind the last one.
abbrev pub IsLate : ℤ → ℕ → Type 0
IsLate (pos n) a = days_before years_count < a + n
IsLate (negsuc n) a = days_before years_count + n + 1 < a

-- The sum with the day of the year is a 32-bit number.
abbrev pub Fits : ℤ → ℕ → Type 0
Fits (pos n) day = n + day < 2 ^ 31
Fits (negsuc n) day = n < 2 ^ 31

abbrev pub Outcome : ℤ → ℕ → Date → Type 0
Outcome days a r =
    ((y : ℕ) × (m : ℕ) × (d : ℕ) × (r ≡ date y m d) × IsDate y m d × IsShift days a (ordinal y m d))
    ⊎ (((r ≡ refused) × IsEarly days a) ⊎ ((r ≡ outside) × IsLate days a))

days_to_month-first : (leap : Bool) → days_to_month leap 1 ≡ 0
unfolding days_to_month
days_to_month-first true = refl
days_to_month-first false = refl

date_of_lem :
    (total y days : ℕ)
    → IsDay total y days
    → (m : ℕ) × (d : ℕ) × (date_of (reached y days) ≡ date y m d)
      × IsDate y m d
      × (ordinal y m d ≡ total)
unfolding date_of day_of_date
date_of_lem total y days k =
    let leap = is_leap_year y in
    let m = find_month 11 leap 2 days - 1 in
    let start : days_to_month leap 1 < days =
      subst (λ t. t < days) (sym (days_to_month-first leap)) k.first in
    let i : InMonth leap days m =
      find_month_lem 11 leap 2 days (omega arith) (omega arith) start k.last in
    (
      m,
      days - days_to_month leap m,
      refl,
      record {
        inside = k.inside;
        first_month = i.first;
        last_month = i.last;
        first = omega (arith, i.before);
        last = omega (arith, i.within);
      },
      omega (arith, i.before, k.place),
    )

module _ (days : ℤ) (a : ℕ) where
  later-Outcome :
      (total : ℕ) (r : Reached)
      → Later total r
      → IsShift days a total
      → (days_before years_count < total → IsLate days a)
      → Outcome days a (date_of r)
  unfolding date_of
  later-Outcome total r (inl (y, d, e, k)) shift late =
      let (m, d', e', w, o) = date_of_lem total y d k in
      inl (y, m, d', ap date_of e ∙ e', w, subst (λ b. IsShift days a b) (sym o) shift)
  later-Outcome total r (inr (e, h)) shift late = inr (inr (ap date_of e, late h))

  earlier-Outcome :
      (before short : ℕ) (r : Reached)
      → Earlier before short r
      → (short < before → IsShift days a (before - short))
      → (before ≤ short → IsEarly days a)
      → Outcome days a (date_of r)
  unfolding date_of
  earlier-Outcome before short r (inl (y, d, e, k)) shift early =
      let (m, d', e', w, o) = date_of_lem (before - short) y d k in
      let inside : short < before = omega (arith, k.first, k.place) in
      inl (y, m, d', ap date_of e ∙ e', w, subst (λ b. IsShift days a b) (sym o) (shift inside))
  earlier-Outcome before short r (inr (e, h)) shift early = inr (inl (ap date_of e, early h))

  -- From the day `t` of the year, or from as many days in front of it.
  reach-pos :
      (t y : ℕ)
      → y < years_count
      → IsShift days a (days_before y + t)
      → (days_before years_count < days_before y + t → IsLate days a)
      → (days_before y + t < 1 → IsEarly days a)
      → Outcome days a (date_of (reach_year (pos t) y))
  unfolding reach_year
  reach-pos zero y hy shift late early =
      earlier-Outcome (days_before y) 0 (earlier_year (y + 1) 0 y)
        (earlier_year_lem (y + 1) 0 y (omega arith) (omega arith))
        (λ h. subst (λ b. IsShift days a b) (omega arith) shift) (λ h. early (omega arith))
  reach-pos (suc t) y hy shift late early =
      later-Outcome (days_before y + suc t) (later_year (suc t + 1) (suc t) y)
        (later_year_lem (suc t + 1) (suc t) y (omega arith) (omega arith) (omega arith)) shift late

  reach-negsuc :
      (t y : ℕ)
      → y < years_count
      → (t + 1 < days_before y → IsShift days a (days_before y - (t + 1)))
      → (days_before y ≤ t + 1 → IsEarly days a)
      → Outcome days a (date_of (reach_year (negsuc t) y))
  unfolding reach_year
  reach-negsuc t y hy shift early =
      earlier-Outcome (days_before y) (t + 1) (earlier_year (y + 1) (t + 1) y)
        (earlier_year_lem (y + 1) (t + 1) y (omega arith) (omega arith)) shift early

add_days-pos : (n days : ℕ) → n + days < 2 ^ 31 → add_days (pos n) days ≡ pos (n + days)
unfolding add_days
add_days-pos n days h =
    let e : ltb (n + days) (2 ^ 31) ≡ true = ground arith in rw (to_int32, e) refl

add_days-within : (n days : ℕ) → n < days → add_days (negsuc n) days ≡ pos (days - (n + 1))
unfolding add_days
add_days-within n days h = let e : ltb n days ≡ true = ground arith in rw e refl

add_days-before : (n days : ℕ) → days ≤ n → add_days (negsuc n) days ≡ negsuc (n - days)
unfolding add_days
add_days-before n days h = let e : ltb n days ≡ false = ground arith in rw e refl

-- The day of the year is its `days`-th one.
abbrev Moved : ℤ → ℕ → ℕ → Type 0
Moved n year days =
    Outcome n (days_before year + days) (date_of (reach_year (add_days n days) year))

moved_lem :
    (n : ℤ) (year days : ℕ) → year < years_count → 0 < days → Fits n days → Moved n year days
moved_lem (pos n) year days hy hd h =
    subst (λ s. Outcome (pos n) (days_before year + days) (date_of (reach_year s year)))
      (sym (add_days-pos n days h))
      (reach-pos (pos n) (days_before year + days) (n + days) year hy (omega arith)
        (λ k. omega arith) (λ k. omega arith))
moved_lem (negsuc n) year days hy hd h =
    let a = days_before year + days in
    elim (dec_lt n days) [
      | yes within ↦
          subst (λ s. Outcome (negsuc n) a (date_of (reach_year s year)))
            (sym (add_days-within n days within))
            (reach-pos (negsuc n) a (days - (n + 1)) year hy (omega arith) (λ k. omega arith)
              (λ k. omega arith))
      | no before ↦
          subst (λ s. Outcome (negsuc n) a (date_of (reach_year s year)))
            (sym (add_days-before n days (omega arith)))
            (reach-negsuc (negsuc n) a (n - days) year hy (λ k. omega arith) (λ k. omega arith))
    ]

-- `add_date_days` for a date of the years -32768 to 32767 and a number of days whose sum with the
-- day of the year is a 32-bit number: it ends, with the date that is that many days away, which is
-- a date of these years; or it refuses, where that day is in front of the first one; or it reads
-- outside of the table of years, where that day is behind the last one.
pub add_date_days_lem :
    (days : ℤ) (year month day : ℕ)
    → IsDate year month day
    → Fits days (day_of_date (is_leap_year year) month day)
    → Outcome days (ordinal year month day) (add_date_days days year month day)
unfolding add_date_days day_of_date
add_date_days_lem days year month day w h =
    moved_lem days year (days_to_month (is_leap_year year) month + day) w.inside
      (omega (arith, w.first)) h
