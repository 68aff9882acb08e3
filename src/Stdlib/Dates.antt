-- ===== src/Stdlib/Dates.antt =====
-- The dates of stdlib/base/base_dates.cpp and is_leap_year of utils/include/date.h. A year is its
-- place in cachedYears: year + 32768. The table is filled with is_leap_year of each year.
pub mod Years
pub mod Months
pub mod Weekdays
pub mod Moves
pub mod Differences
mod Tests
use whais.Prelude.{
  ℕ, zero, suc, ◌+◌, ◌-◌, ◌%◌, ◌^◌, Bool, true, false, ◌&&◌, Option, none, some, List, [], ◌∷◌, ltb,
  leb, ◌==◌, if◌then◌else◌, get_or,
}

pub data ℤ : Type 0 where
  pos : ℕ → ℤ
  negsuc : ℕ → ℤ

-- The places of `cachedYears`.
unfoldable pub years_count : ℕ
years_count = 65536

-- A remainder is 0 for a year and for its negation alike.
unfoldable pub is_leap_year : ℕ → Bool
is_leap_year place =
    let year = if leb 32768 place then place - 32768 else 32768 - place in
    if year % 4 == 0
    then (if year % 100 == 0 then (if year % 400 == 0 then true else false) else true)
    else false

-- `none` is a read outside of the table.
unfoldable pub is_leap : ℕ → Option Bool
unfolding is_leap_year years_count
is_leap place = if ltb place years_count then some (is_leap_year place) else none

unfoldable pub days_of_year : ℕ → Option ℕ
unfolding is_leap
days_of_year place = elim (is_leap place) [
  | none ↦ none
  | some leap ↦ some (if leap then 366 else 365)
]

abbrev pub mnth_days : List ℕ
mnth_days = 31 ∷ 28 ∷ 31 ∷ 30 ∷ 31 ∷ 30 ∷ 31 ∷ 31 ∷ 30 ∷ 31 ∷ 30 ∷ 31 ∷ []

abbrev pub mnth_ydays : List ℕ
mnth_ydays = 0 ∷ 31 ∷ 59 ∷ 90 ∷ 120 ∷ 151 ∷ 181 ∷ 212 ∷ 243 ∷ 273 ∷ 304 ∷ 334 ∷ []

-- `days_to_month` in a year that is a leap year or not.
unfoldable pub days_to_month : Bool → ℕ → ℕ
days_to_month true month =
    if ltb 2 month then get_or mnth_ydays (month - 1) 0 + 1 else get_or mnth_ydays (month - 1) 0
days_to_month false month = get_or mnth_ydays (month - 1) 0

unfoldable pub day_of_date : Bool → ℕ → ℕ → ℕ
unfolding days_to_month
day_of_date leap month day = days_to_month leap month + day

-- What the loops over the years come to: a year and a day in it, `false`, a read outside of the
-- table, or no end.
pub data Reached : Type 0 where
  reached : ℕ → ℕ → Reached
  refused : Reached
  outside : Reached
  endless : Reached

-- The first loop of `add_date_days`, on fuel.
unfoldable pub later_year : ℕ → ℕ → ℕ → Reached
later_year zero days year = endless
later_year (suc fuel) days year = elim (days_of_year year) [
  | none ↦ outside
  | some count ↦
      let rest = later_year fuel (days - count) (year + 1) in
      if ltb count days then (if ltb 65535 year then refused else rest) else reached year days
]

-- The second loop, on fuel, for as many days in front of the year as `short` and one says.
unfoldable pub earlier_year : ℕ → ℕ → ℕ → Reached
earlier_year zero short year = endless
earlier_year (suc fuel) short year = if year == 0 then refused else elim (days_of_year (year - 1)) [
  | none ↦ outside
  | some count ↦
      let rest = earlier_year fuel (short - count) (year - 1) in
      if ltb short count then reached (year - 1) (count - short) else rest
]

-- The loop over the months, from `month` on, with `left` months to try.
unfoldable pub find_month : ℕ → Bool → ℕ → ℕ → ℕ
find_month zero leap month days = month
find_month (suc left) leap month days =
    let rest = find_month left leap (month + 1) days in
    if ltb (days_to_month leap month) days then rest else month

-- A 32-bit sum, as a signed number.
unfoldable pub to_int32 : ℕ → ℤ
to_int32 n = if ltb n (2 ^ 31) then pos n else negsuc (2 ^ 32 - (n + 1))

unfoldable pub add_days : ℤ → ℕ → ℤ
unfolding to_int32
add_days (pos n) days = to_int32 (n + days)
add_days (negsuc n) days = if ltb n days then pos (days - (n + 1)) else negsuc (n - days)

unfoldable pub reach_year : ℤ → ℕ → Reached
unfolding later_year earlier_year
reach_year (pos zero) year = earlier_year (year + 1) 0 year
reach_year (pos (suc n)) year = later_year (suc n + 1) (suc n) year
reach_year (negsuc n) year = earlier_year (year + 1) (n + 1) year

pub data Date : Type 0 where
  date : ℕ → ℕ → ℕ → Date
  refused : Date
  outside : Date
  endless : Date

unfoldable pub date_of : Reached → Date
unfolding find_month
date_of (reached year days) =
    let leap = is_leap_year year in
    let month = find_month 11 leap 2 days - 1 in date year month (days - days_to_month leap month)
date_of refused = refused
date_of outside = outside
date_of endless = endless

-- `add_date_days`.
unfoldable pub add_date_days : ℤ → ℕ → ℕ → ℕ → Date
unfolding add_days reach_year date_of day_of_date
add_date_days days year month day =
    date_of (reach_year (add_days days (day_of_date (is_leap_year year) month day)) year)

-- `YearsAttrs`: an entry of `cachedYears`.
pub record YearsAttrs : Type 0 where
  pub leaps : Bool
  pub first_jan_week_day : ℕ

-- The loops of `compute_year_attrs`, with as many years as are left: what they add, from a year on,
-- and what they take away, in front of a year.
unfoldable pub weekdays_added : ℕ → ℕ → ℕ → ℕ
weekdays_added zero year sum = sum
weekdays_added (suc left) year sum =
    weekdays_added left (year + 1) (sum + (if is_leap_year year then 2 else 1))

unfoldable pub weekdays_taken : ℕ → ℕ → ℕ → ℕ
weekdays_taken zero year sum = sum
weekdays_taken (suc left) year sum =
    weekdays_taken left (year - 1) (sum + (if is_leap_year (year - 1) then 2 else 1))

unfoldable pub compute_year_attrs : ℕ → ℕ → ℕ → YearsAttrs
unfolding weekdays_added weekdays_taken
compute_year_attrs ref_year ref_first_jan year =
    let added = weekdays_added (year - ref_year) ref_year ref_first_jan in
    let taken = weekdays_taken (ref_year - year) ref_year 0 in
    record {
      leaps = is_leap_year year;
      first_jan_week_day = if ltb added taken then 7 - (taken - added) % 7 else (added - taken) % 7;
    }

abbrev pub ref_jan_first : ℕ
ref_jan_first = 5

unfoldable pub ref_year : ℕ
ref_year = 2000 + 32768

-- The table holds what `base_dates_init` computed.
unfoldable pub get_first_jan_weekday : ℕ → ℕ
unfolding compute_year_attrs ref_year
get_first_jan_weekday year = (compute_year_attrs ref_year ref_jan_first year).first_jan_week_day

-- The week of the first day of a year behind the first one of the table.
unfoldable pub week_of_first_jan : ℕ → ℕ
unfolding get_first_jan_weekday
week_of_first_jan year =
    let jan_first = get_first_jan_weekday year in
    if ltb jan_first 4
    then 1
    else if is_leap_year (year - 1)
    then (if jan_first == 5 then 53 else 52)
    else (if jan_first == 4 then 53 else 52)

-- Its assertions stop it: `none`. That of `day_of_date` is for the caller to keep.
unfoldable pub get_date_weekday : ℕ → ℕ → ℕ → Option ℕ
unfolding get_first_jan_weekday day_of_date
get_date_weekday year month day =
    let jan_first = get_first_jan_weekday year in
    let date_days = day_of_date (is_leap_year year) month day in
    if ltb jan_first 7 && ltb 0 date_days then some ((jan_first + date_days - 1) % 7) else none

-- The loops of `years_days_diff`, with as many years as are left; it is asked for years of the table.
unfoldable pub sum_days : ℕ → ℕ → ℕ → ℕ
sum_days zero year sum = sum
sum_days (suc left) year sum =
    sum_days left (year + 1) (sum + (if is_leap_year year then 366 else 365))

-- A difference as a signed number.
unfoldable pub difference : ℕ → ℕ → ℤ
difference a b = if leb b a then pos (a - b) else negsuc (b - (a + 1))

unfoldable pub years_days_diff : ℕ → ℕ → ℤ
unfolding sum_days difference
years_days_diff year1 year2 =
    if ltb year1 year2
    then difference (sum_days (year2 - year1) year1 0) 0
    else difference 0 (sum_days (year1 - year2) year2 0)

-- `days` more, and `fewer` less.
unfoldable pub shift_days : ℕ → ℕ → ℤ → ℤ
unfolding difference
shift_days days fewer (pos n) = difference (n + days) fewer
shift_days days fewer (negsuc n) = difference days (n + 1 + fewer)

-- What `diff_date_days` pushes for two dates that are not null: the days from the first one to the
-- second one.
unfoldable pub diff_date_days : ℕ → ℕ → ℕ → ℕ → ℕ → ℕ → ℤ
unfolding years_days_diff shift_days day_of_date
diff_date_days year1 month1 day1 year2 month2 day2 =
    shift_days (day_of_date (is_leap_year year2) month2 day2)
      (day_of_date (is_leap_year year1) month1 day1) (years_days_diff year1 year2)
