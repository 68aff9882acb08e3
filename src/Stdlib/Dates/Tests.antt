-- ===== src/Stdlib/Dates/Tests.antt =====
-- Dates around the end of February and the ends of the table of years.
use whais.Prelude.{◌+◌, ◌<◌, ◌≡◌, refl, none, some, arith}
use whais.Stdlib.Dates.{
  pos, negsuc, years_count, is_leap_year, is_leap, days_of_year, days_to_month, day_of_date,
  find_month, refused, outside, date, later_year, earlier_year, to_int32, add_days, reach_year,
  date_of, add_date_days, sum_days, difference, years_days_diff, shift_days, diff_date_days,
  weekdays_added, weekdays_taken, compute_year_attrs, ref_year, get_first_jan_weekday,
  week_of_first_jan, get_date_weekday,
}
use whais.Stdlib.Dates.Differences.{add_date_days-diff_date_days}
use whais.Stdlib.Dates.Moves.{IsDate, Outcome, ordinal, add_date_days_lem}

-- 2024-02-28, with 2024 + 32768 as its year, and the day after the next one.
leap_day : add_date_days (pos 2) 34792 2 28 ≡ date 34792 3 1
unfolding add_date_days add_days to_int32 reach_year later_year days_of_year is_leap is_leap_year
    years_count day_of_date days_to_month date_of find_month
leap_day = refl

year_before : add_date_days (negsuc 0) 34792 1 1 ≡ date 34791 12 31
unfolding add_date_days add_days to_int32 reach_year earlier_year days_of_year is_leap is_leap_year
    years_count day_of_date days_to_month date_of find_month
year_before = refl

before_first : add_date_days (negsuc 0) 0 1 1 ≡ refused
unfolding add_date_days add_days to_int32 reach_year earlier_year days_of_year is_leap is_leap_year
    years_count day_of_date days_to_month date_of find_month
before_first = refl

behind_last : add_date_days (pos 1) 65535 12 31 ≡ outside
unfolding add_date_days add_days to_int32 reach_year later_year days_of_year is_leap is_leap_year
    years_count day_of_date days_to_month date_of find_month
behind_last = refl

feb_28-IsDate : IsDate 34792 2 28
unfolding years_count is_leap_year
feb_28-IsDate = record {
  inside = omega arith;
  first_month = omega arith;
  last_month = omega arith;
  first = omega arith;
  last = omega arith;
}

feb_28-day : 2 + day_of_date (is_leap_year 34792) 2 28 < 2147483648
unfolding day_of_date days_to_month is_leap_year
feb_28-day = omega arith

add_date_days_lem_example : Outcome (pos 2) (ordinal 34792 2 28) (add_date_days (pos 2) 34792 2 28)
add_date_days_lem_example = add_date_days_lem (pos 2) 34792 2 28 feb_28-IsDate feb_28-day

-- The first day of 1990 was a Monday, of the first week.
monday_of_1990 : get_first_jan_weekday 34758 ≡ 7
unfolding get_first_jan_weekday compute_year_attrs weekdays_added weekdays_taken is_leap_year
    ref_year
monday_of_1990 = refl

week_of_1990 : week_of_first_jan 34758 ≡ 52
unfolding week_of_first_jan get_first_jan_weekday compute_year_attrs weekdays_added weekdays_taken
    is_leap_year ref_year
week_of_1990 = refl

-- 2024-02-28 was a Wednesday.
wednesday : get_date_weekday 34792 2 28 ≡ some 2
unfolding get_date_weekday get_first_jan_weekday compute_year_attrs weekdays_added weekdays_taken
    is_leap_year ref_year day_of_date days_to_month
wednesday = refl

stopped_in_1990 : get_date_weekday 34758 2 28 ≡ none
unfolding get_date_weekday get_first_jan_weekday compute_year_attrs weekdays_added weekdays_taken
    is_leap_year ref_year day_of_date days_to_month
stopped_in_1990 = refl

new_year-IsDate : IsDate 34791 1 1
unfolding years_count is_leap_year
new_year-IsDate = record {
  inside = omega arith;
  first_month = omega arith;
  last_month = omega arith;
  first = omega arith;
  last = omega arith;
}

back_to_new_year : diff_date_days 34792 2 28 34791 1 1 ≡ negsuc 422
unfolding diff_date_days years_days_diff shift_days sum_days difference day_of_date days_to_month
    is_leap_year
back_to_new_year = refl

add_date_days-diff_date_days_example :
    add_date_days (diff_date_days 34792 2 28 34791 1 1) 34792 2 28 ≡ date 34791 1 1
add_date_days-diff_date_days_example =
    add_date_days-diff_date_days 34792 2 28 34791 1 1 feb_28-IsDate new_year-IsDate
