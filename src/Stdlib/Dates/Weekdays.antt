-- ===== src/Stdlib/Dates/Weekdays.antt =====
-- The weekday of the first day of a year that `compute_year_attrs` finds.
use whais.Prelude.{ℕ, ◌+◌, ◌-◌, ◌%◌, ◌<◌, ◌≡◌, ◌⊎◌, Option, none, some, ltb, if◌then◌else◌}
use whais.Stdlib.Dates.{ref_year, ref_jan_first, get_first_jan_weekday}
use whais.Stdlib.Dates.Moves.{ordinal}
use whais.Stdlib.Dates.Years.{days_before}

abbrev weekday : ℕ → ℕ → ℕ
weekday added taken = if ltb added taken then 7 - (taken - added) % 7 else (added - taken) % 7

-- The weekday of a date; or none, for a year before 2000 that begins on a Monday.
abbrev pub IsWeekday : ℕ → ℕ → ℕ → Option ℕ → Type 0
IsWeekday year month day r =
    ((w : ℕ) × (r ≡ some w)
      × (get_first_jan_weekday year < 7)
      × (w < 7)
      × ((w + days_before ref_year + 1) % 7 ≡ (ref_jan_first + ordinal year month day) % 7))
    ⊎ ((r ≡ none)
        × (get_first_jan_weekday year ≡ 7)
        × (year < ref_year)
        × ((ref_jan_first + days_before year) % 7 ≡ days_before ref_year % 7))
