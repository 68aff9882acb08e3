-- ===== src/Stdlib/Dates/Differences.antt =====
-- The number of days between two dates, which `add_date_days` goes back over.
use native.Mathlib.Decide.{dec_lt}
use whais.Prelude.{
  ℕ, zero, suc, ◌+◌, ◌-◌, ◌*◌, ◌^◌, ◌≤◌, ◌<◌, ◌≡◌, refl, sym, ap, subst, ◌∙◌, inl, inr, Bool, true,
  false, arith, ltb, leb,
}
use whais.Stdlib.Dates.{
  ℤ, pos, negsuc, years_count, is_leap_year, days_to_month, day_of_date, Date, date, add_date_days,
  sum_days, difference, years_days_diff, shift_days, diff_date_days,
}
use whais.Stdlib.Dates.Years.{days_before, days_before-next, year_days, last_year}
use whais.Stdlib.Dates.Months.{month_days, length_of_year, days_to_month-next}
use whais.Stdlib.Dates.Moves.{
  IsDate, ordinal, IsShift, IsEarly, IsLate, Outcome, Fits, add_date_days_lem,
}

sum_days_lem :
    (left year sum : ℕ)
    → sum_days left year sum + days_before year ≡ sum + days_before (year + left)
unfolding sum_days
sum_days_lem zero year sum =
    let e : days_before (year + 0) ≡ days_before year = ap days_before (omega arith) in omega arith
sum_days_lem (suc left) year sum =
    let e : days_before (year + suc left) ≡ days_before (year + 1 + left) =
      ap days_before (omega arith) in
    let ih = sum_days_lem left (year + 1) (sum + year_days year) in
    omega (arith, e, ih, days_before-next year)

difference_lem : (a b : ℕ) → IsShift (difference a b) b a
unfolding difference
difference_lem a b = elim (dec_lt a b) [
  | yes less ↦ let e : leb b a ≡ false = ground arith in rw e (omega arith)
  | no more ↦ let e : leb b a ≡ true = ground arith in rw e (omega arith)
]

-- A shift is one between any two days as far from each other.
IsShift-move : (n : ℤ) (a b a' b' : ℕ) → IsShift n a b → a + b' ≡ a' + b → IsShift n a' b'
IsShift-move (pos n) a b a' b' h e = omega arith
IsShift-move (negsuc n) a b a' b' h e = omega arith

years_days_diff_lem :
    (year1 year2 : ℕ)
    → IsShift (years_days_diff year1 year2) (days_before year1) (days_before year2)
unfolding years_days_diff
years_days_diff_lem year1 year2 = elim (dec_lt year1 year2) [
  | yes later ↦
      let total : ℕ = sum_days (year2 - year1) year1 0 in
      let e : ltb year1 year2 ≡ true = ground arith in
      let e' : days_before (year1 + (year2 - year1)) ≡ days_before year2 =
        ap days_before (omega arith) in
      let h = sum_days_lem (year2 - year1) year1 0 in
      rw e (
        IsShift-move (difference total 0) 0 total _ _ (difference_lem total 0)
          (omega (arith, e', h)))
  | no earlier ↦
      let total : ℕ = sum_days (year1 - year2) year2 0 in
      let e : ltb year1 year2 ≡ false = ground arith in
      let e' : days_before (year2 + (year1 - year2)) ≡ days_before year1 =
        ap days_before (omega arith) in
      let h = sum_days_lem (year1 - year2) year2 0 in
      rw e (
        IsShift-move (difference 0 total) total 0 _ _ (difference_lem 0 total)
          (omega (arith, e', h)))
]

shift_days_lem :
    (n : ℤ) (a b days fewer : ℕ)
    → IsShift n a b
    → IsShift (shift_days days fewer n) (a + fewer) (b + days)
unfolding shift_days
shift_days_lem (pos n) a b days fewer h =
    IsShift-move (difference (n + days) fewer) fewer (n + days) _ _
      (difference_lem (n + days) fewer) (omega arith)
shift_days_lem (negsuc n) a b days fewer h =
    IsShift-move (difference days (n + 1 + fewer)) (n + 1 + fewer) days _ _
      (difference_lem days (n + 1 + fewer)) (omega arith)

diff_date_days_lem :
    (year1 month1 day1 year2 month2 day2 : ℕ)
    → IsShift
        (diff_date_days year1 month1 day1 year2 month2 day2)
        (ordinal year1 month1 day1)
        (ordinal year2 month2 day2)
unfolding diff_date_days day_of_date
diff_date_days_lem year1 month1 day1 year2 month2 day2 =
    shift_days_lem (years_days_diff year1 year2) (days_before year1) (days_before year2) _ _
      (years_days_diff_lem year1 year2)

-- The months of a year stand one behind the other, and inside the year.
days_to_month-later :
    (leap : Bool) (gap month : ℕ)
    → 1 ≤ month
    → month + gap < 12
    → days_to_month leap month + month_days leap month ≤ days_to_month leap (month + 1 + gap)
days_to_month-later leap zero month h h' =
    let e : days_to_month leap (month + 1 + 0) ≡ days_to_month leap (month + 1) =
      ap (days_to_month leap) (omega arith) in
    ground (arith, e, days_to_month-next leap month)
days_to_month-later leap (suc gap) month h h' =
    let e : days_to_month leap (month + 1 + suc gap) ≡ days_to_month leap (month + 1 + gap + 1) =
      ap (days_to_month leap) (omega arith) in
    ground (arith, e, days_to_month-later leap gap month, days_to_month-next leap (month + 1 + gap))

days_to_month-within :
    (leap : Bool) (month : ℕ)
    → 1 ≤ month
    → month ≤ 12
    → days_to_month leap month + month_days leap month ≤ length_of_year leap
days_to_month-within leap month h h' = elim (dec_lt month 12) [
  | yes less ↦
      let e : days_to_month leap (month + 1 + (11 - month)) ≡ days_to_month leap 12 =
        ap (days_to_month leap) (omega arith) in
      ground (arith, e, days_to_month-later leap (11 - month) month, days_to_month-next leap 12)
  | no last ↦ ground (arith, days_to_month-next leap month)
]

days_before-later :
    (gap year : ℕ) → days_before year + year_days year ≤ days_before (year + 1 + gap)
days_before-later zero year =
    let e : days_before (year + 1 + 0) ≡ days_before (year + 1) = ap days_before (omega arith) in
    omega (arith, e, days_before-next year)
days_before-later (suc gap) year =
    let e : days_before (year + 1 + suc gap) ≡ days_before (year + 1 + gap + 1) =
      ap days_before (omega arith) in
    omega (arith, e, days_before-later gap year, days_before-next (year + 1 + gap))

days_before-bound : (year : ℕ) → days_before year ≤ 366 * year
unfolding days_before
days_before-bound zero = omega arith
days_before-bound (suc year) = ground (arith, days_before-bound year)

-- A date lies in its year, and in front of the dates of later years and of later months.
day_of_date-within :
    (year month day : ℕ)
    → IsDate year month day
    → (0 < day_of_date (is_leap_year year) month day)
      × (day_of_date (is_leap_year year) month day ≤ year_days year)
unfolding day_of_date
day_of_date-within year month day w =
    let h = days_to_month-within (is_leap_year year) month w.first_month w.last_month in
    (omega (arith, w.first), omega (arith, w.last, h))

ordinal-later_year :
    (year month day year' month' day' : ℕ)
    → IsDate year month day
    → IsDate year' month' day'
    → year < year'
    → ordinal year month day < ordinal year' month' day'
ordinal-later_year year month day year' month' day' w w' h =
    let e : days_before (year + 1 + (year' - (year + 1))) ≡ days_before year' =
      ap days_before (omega arith) in
    let (p, q) = day_of_date-within year month day w in
    let (p', q') = day_of_date-within year' month' day' w' in
    omega (arith, e, q, p', days_before-later (year' - (year + 1)) year)

ordinal-later_month :
    (year month day month' day' : ℕ)
    → IsDate year month day
    → IsDate year month' day'
    → month < month'
    → ordinal year month day < ordinal year month' day'
unfolding day_of_date
ordinal-later_month year month day month' day' w w' h =
    let leap : Bool = is_leap_year year in
    let e : days_to_month leap (month + 1 + (month' - (month + 1))) ≡ days_to_month leap month' =
      ap (days_to_month leap) (omega arith) in
    let later =
      days_to_month-later leap (month' - (month + 1)) month w.first_month
        (omega (arith, w'.last_month)) in
    omega (arith, e, later, w.last, w'.first)

same_year :
    (year month day year' month' day' : ℕ)
    → IsDate year month day
    → IsDate year' month' day'
    → ordinal year month day ≡ ordinal year' month' day'
    → year ≡ year'
same_year year month day year' month' day' w w' e = elim (dec_lt year year') [
  | yes less ↦
      absurd (omega (arith, e, ordinal-later_year year month day year' month' day' w w' less))
  | no more ↦ elim (dec_lt year' year) [
    | yes less ↦
        absurd (omega (arith, e, ordinal-later_year year' month' day' year month day w' w less))
    | no same ↦ omega arith
  ]
]

same_month :
    (year month day month' day' : ℕ)
    → IsDate year month day
    → IsDate year month' day'
    → ordinal year month day ≡ ordinal year month' day'
    → month ≡ month'
same_month year month day month' day' w w' e = elim (dec_lt month month') [
  | yes less ↦ absurd (omega (arith, e, ordinal-later_month year month day month' day' w w' less))
  | no more ↦ elim (dec_lt month' month) [
    | yes less ↦ absurd (omega (arith, e, ordinal-later_month year month' day' month day w' w less))
    | no same ↦ omega arith
  ]
]

-- A day is the day of one date only.
date-same :
    (year month day year' month' day' : ℕ)
    → IsDate year month day
    → IsDate year' month' day'
    → ordinal year month day ≡ ordinal year' month' day'
    → date year month day ≡ date year' month' day'
unfolding day_of_date
date-same year month day year' month' day' w w' e =
    let y = same_year year month day year' month' day' w w' e in
    let w₁ : IsDate year month' day' = subst (λ y'. IsDate y' month' day') (sym y) w' in
    let e₁ : ordinal year month day ≡ ordinal year month' day' =
      e ∙ ap (λ y'. ordinal y' month' day') (sym y) in
    let m = same_month year month day month' day' w w₁ e₁ in
    let d : day ≡ day' = omega (arith, e₁ ∙ ap (λ m'. ordinal year m' day') (sym m)) in
    rw (y, m, d) refl

difference-Fits :
    (n : ℤ) (a b day : ℕ) → IsShift n a b → a < 2 ^ 30 → b < 2 ^ 30 → day < 2 ^ 30 → Fits n day
difference-Fits (pos n) a b day h ha hb hd = omega arith
difference-Fits (negsuc n) a b day h ha hb hd = omega arith

ordinal-bound : (year month day : ℕ) → IsDate year month day → ordinal year month day < 2 ^ 30
ordinal-bound year month day w =
    let (p, q) = day_of_date-within year month day w in
    ground (arith, q, days_before-bound year, last_year)

IsShift-same : (n : ℤ) (a b b' : ℕ) → IsShift n a b → IsShift n a b' → b ≡ b'
IsShift-same (pos n) a b b' h h' = omega arith
IsShift-same (negsuc n) a b b' h h' = omega arith

-- A day inside the table of years is neither in front of it nor behind it.
shift-ne-early : (n : ℤ) (a b : ℕ) → IsShift n a b → 0 < b → IsEarly n a → b < b
shift-ne-early (pos n) a b h inside early = omega arith
shift-ne-early (negsuc n) a b h inside early = omega arith

shift-ne-late : (n : ℤ) (a b : ℕ) → IsShift n a b → b ≤ days_before years_count → IsLate n a → b < b
shift-ne-late (pos n) a b h inside late = omega arith
shift-ne-late (negsuc n) a b h inside late = omega arith

ordinal-inside :
    (year month day : ℕ)
    → IsDate year month day
    → (0 < ordinal year month day) × (ordinal year month day ≤ days_before years_count)
ordinal-inside year month day w =
    let e : days_before (year + 1 + (years_count - (year + 1))) ≡ days_before years_count =
      ap days_before (omega (arith, w.inside)) in
    let (p, q) = day_of_date-within year month day w in
    (omega (arith, p), omega (arith, e, q, days_before-later (years_count - (year + 1)) year))

target_found :
    (n : ℤ) (a year month day : ℕ) (r : Date)
    → IsDate year month day
    → IsShift n a (ordinal year month day)
    → Outcome n a r
    → r ≡ date year month day
target_found n a year month day r w h (inl (y, m, d, e, w', h')) =
    e ∙ date-same y m d year month day w' w (IsShift-same n a _ _ h' h)
target_found n a year month day r w h (inr (inl (e, early))) =
    let (p, q) = ordinal-inside year month day w in
    absurd (omega (arith, shift-ne-early n a (ordinal year month day) h p early))
target_found n a year month day r w h (inr (inr (e, late))) =
    let (p, q) = ordinal-inside year month day w in
    absurd (omega (arith, shift-ne-late n a (ordinal year month day) h q late))

-- For any two dates of the years -32768 to 32767, in either order, `add_date_days` takes the first one
-- over the number of days that `diff_date_days` finds between them to the second one.
pub add_date_days-diff_date_days :
    (year1 month1 day1 year2 month2 day2 : ℕ)
    → IsDate year1 month1 day1
    → IsDate year2 month2 day2
    → add_date_days (diff_date_days year1 month1 day1 year2 month2 day2) year1 month1 day1
      ≡ date year2 month2 day2
add_date_days-diff_date_days year1 month1 day1 year2 month2 day2 w w' =
    let n = diff_date_days year1 month1 day1 year2 month2 day2 in
    let h = diff_date_days_lem year1 month1 day1 year2 month2 day2 in
    let (p, q) = day_of_date-within year1 month1 day1 w in
    let fits : Fits n (day_of_date (is_leap_year year1) month1 day1) =
      difference-Fits n (ordinal year1 month1 day1) (ordinal year2 month2 day2) _ h
        (ordinal-bound year1 month1 day1 w) (ordinal-bound year2 month2 day2 w')
        (ground (arith, q)) in
    target_found n (ordinal year1 month1 day1) year2 month2 day2 _ w' h
      (add_date_days_lem n year1 month1 day1 w fits)
