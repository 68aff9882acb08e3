-- ===== src/Stdlib/Dates/Years.antt =====
-- The loops over the years of `add_date_days` find the year in which a day lies.
use native.Mathlib.Decide.{dec_lt}
use whais.Prelude.{
  ℕ, zero, suc, ◌+◌, ◌-◌, ◌≤◌, ◌<◌, ◌≡◌, refl, sym, subst, ◌⊎◌, inl, inr, true, false, none, some,
  arith, ltb, ◌==◌, if◌then◌else◌,
}
use whais.Stdlib.Dates.{
  years_count, is_leap_year, is_leap, days_of_year, Reached, reached, refused, outside, later_year,
  earlier_year,
}

abbrev pub year_days : ℕ → ℕ
year_days year = if is_leap_year year then 366 else 365

-- The days in front of a year, from the first one of the table on.
unfoldable pub days_before : ℕ → ℕ
days_before zero = 0
days_before (suc year) = days_before year + year_days year

pub days_before-next : (year : ℕ) → days_before (year + 1) ≡ days_before year + year_days year
unfolding days_before
days_before-next year = let e : year + 1 ≡ suc year = omega arith in rw e refl

days_of_year-inside : (year : ℕ) → year < years_count → days_of_year year ≡ some (year_days year)
unfolding days_of_year is_leap_year
days_of_year-inside year h =
    let e : ltb year years_count ≡ true = ground arith in rw (days_of_year, is_leap, e) refl

days_of_year-outside : (year : ℕ) → years_count ≤ year → days_of_year year ≡ none
unfolding days_of_year
days_of_year-outside year h =
    let e : ltb year years_count ≡ false = ground arith in rw (days_of_year, is_leap, e) refl

-- The day `total` of the table is the day `day` of `year`.
pub record IsDay (total year day : ℕ) : Type 0 where
  pub inside : year < years_count
  pub first : 0 < day
  pub last : day ≤ year_days year
  pub place : days_before year + day ≡ total

pub last_year : years_count ≡ 65536
unfolding years_count
last_year = refl

later_year-stop :
    (fuel days year : ℕ)
    → year < years_count
    → days ≤ year_days year
    → later_year (suc fuel) days year ≡ reached year days
unfolding later_year
later_year-stop fuel days year hy h =
    let e : ltb (year_days year) days ≡ false = ground arith in
    rw (later_year, days_of_year-inside year hy, e) refl

later_year-next :
    (fuel days year : ℕ)
    → year < years_count
    → year_days year < days
    → later_year (suc fuel) days year ≡ later_year fuel (days - year_days year) (year + 1)
unfolding later_year
later_year-next fuel days year hy h =
    let e : ltb (year_days year) days ≡ true = ground arith in
    let e' : ltb 65535 year ≡ false = ground (arith, last_year) in
    rw (later_year, days_of_year-inside year hy, e, e') refl

later_year-end :
    (fuel days year : ℕ) → years_count ≤ year → later_year (suc fuel) days year ≡ outside
unfolding later_year
later_year-end fuel days year h = rw (later_year, days_of_year-outside year h) refl

abbrev pub Later : ℕ → Reached → Type 0
Later total r =
    ((y : ℕ) × (d : ℕ) × (r ≡ reached y d) × IsDay total y d)
    ⊎ ((r ≡ outside) × (days_before years_count < total))

pub later_year_lem :
    (fuel days year : ℕ)
    → 0 < days
    → days < fuel
    → year ≤ years_count
    → Later (days_before year + days) (later_year fuel days year)
later_year_lem zero days year h hf hy = absurd (omega arith)
later_year_lem (suc fuel) days year h hf hy = elim (dec_lt year years_count) [
  | no end ↦
      let e : year ≡ years_count = omega arith in
      inr (later_year-end fuel days year (omega arith), rw e (omega arith))
  | yes inside ↦ elim (dec_lt (year_days year) days) [
    | no stop ↦ inl (
      year,
      days,
      later_year-stop fuel days year inside (omega arith),
      record { inside = inside; first = h; last = omega arith; place = refl },
    )
    | yes next ↦
        let e : days_before (year + 1) + (days - year_days year) ≡ days_before year + days =
          omega (arith, days_before-next year) in
        let r =
          later_year_lem fuel (days - year_days year) (year + 1) (omega arith) (ground arith)
            (omega arith) in
        subst (λ r. Later (days_before year + days) r)
          (sym (later_year-next fuel days year inside next))
          (subst (λ t. Later t (later_year fuel (days - year_days year) (year + 1))) e r)
  ]
]

earlier_year-stop :
    (fuel short year : ℕ)
    → year < years_count
    → short < year_days year
    → earlier_year (suc fuel) short (suc year) ≡ reached year (year_days year - short)
unfolding earlier_year
earlier_year-stop fuel short year hy h =
    let e : ltb short (year_days year) ≡ true = ground arith in
    let e' : (suc year == 0) ≡ false = ground arith in
    let e'' : suc year - 1 ≡ year = omega arith in
    rw (earlier_year, e', e'', days_of_year-inside year hy, e, e'') refl

earlier_year-next :
    (fuel short year : ℕ)
    → year < years_count
    → year_days year ≤ short
    → earlier_year (suc fuel) short (suc year) ≡ earlier_year fuel (short - year_days year) year
unfolding earlier_year
earlier_year-next fuel short year hy h =
    let e : ltb short (year_days year) ≡ false = ground arith in
    let e' : (suc year == 0) ≡ false = ground arith in
    let e'' : suc year - 1 ≡ year = omega arith in
    rw (earlier_year, e', e'', days_of_year-inside year hy, e, e'') refl

abbrev pub Earlier : ℕ → ℕ → Reached → Type 0
Earlier before short r =
    ((y : ℕ) × (d : ℕ) × (r ≡ reached y d) × IsDay (before - short) y d)
    ⊎ ((r ≡ refused) × (before ≤ short))

pub earlier_year_lem :
    (fuel short year : ℕ)
    → year < fuel
    → year ≤ years_count
    → Earlier (days_before year) short (earlier_year fuel short year)
unfolding days_before earlier_year
earlier_year_lem zero short year hf hy = absurd (omega arith)
earlier_year_lem (suc fuel) short zero hf hy = inr (refl, omega arith)
earlier_year_lem (suc fuel) short (suc year) hf hy = elim (dec_lt short (year_days year)) [
  | yes stop ↦ inl (
    year,
    year_days year - short,
    earlier_year-stop fuel short year (omega arith) stop,
    record { inside = omega arith; first = omega arith; last = omega arith; place = omega arith },
  )
  | no next ↦
      let e : days_before year - (short - year_days year)
          ≡ days_before year + year_days year - short =
        omega arith in
      let r = earlier_year_lem fuel (short - year_days year) year (omega arith) (omega arith) in
      subst (λ r. Earlier (days_before year + year_days year) short r)
        (sym (earlier_year-next fuel short year (omega arith) (omega arith)))
        (elim r [
          | inl (y, d, q, k) ↦ inl (y, d, q, subst (λ t. IsDay t y d) e k)
          | inr (q, b) ↦ inr (q, omega arith)
        ])
]
