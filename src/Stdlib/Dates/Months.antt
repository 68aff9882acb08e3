-- ===== src/Stdlib/Dates/Months.antt =====
-- The loop over the months of `add_date_days` finds the month in which a day of a year lies.
use native.Mathlib.Decide.{dec_lt}
use whais.Prelude.{
  ℕ, zero, suc, ◌+◌, ◌-◌, ◌≤◌, ◌<◌, ◌≡◌, refl, ap, sym, subst, Bool, true, false, arith, ltb, ◌==◌,
  ◌&&◌, if◌then◌else◌, get_or,
}
use whais.Stdlib.Dates.{mnth_days, days_to_month, find_month}

abbrev pub month_days : Bool → ℕ → ℕ
month_days leap month = get_or mnth_days (month - 1) 0 + (if leap && month == 2 then 1 else 0)

abbrev pub length_of_year : Bool → ℕ
length_of_year leap = if leap then 366 else 365

-- The table of the days in front of a month adds up those of the months.
pub days_to_month-next :
    (leap : Bool) (month : ℕ)
    → 1 ≤ month
    → month ≤ 12
    → days_to_month leap month + month_days leap month
      ≡ (if ltb month 12 then days_to_month leap (month + 1) else length_of_year leap)
unfolding days_to_month
days_to_month-next true zero h k = absurd (omega arith)
days_to_month-next true (suc zero) h k = refl
days_to_month-next true (suc (suc zero)) h k = refl
days_to_month-next true (suc (suc (suc zero))) h k = refl
days_to_month-next true (suc (suc (suc (suc zero)))) h k = refl
days_to_month-next true (suc (suc (suc (suc (suc zero))))) h k = refl
days_to_month-next true (suc (suc (suc (suc (suc (suc zero)))))) h k = refl
days_to_month-next true (suc (suc (suc (suc (suc (suc (suc zero))))))) h k = refl
days_to_month-next true (suc (suc (suc (suc (suc (suc (suc (suc zero)))))))) h k = refl
days_to_month-next true (suc (suc (suc (suc (suc (suc (suc (suc (suc zero))))))))) h k = refl
days_to_month-next true (suc (suc (suc (suc (suc (suc (suc (suc (suc (suc zero)))))))))) h k = refl
days_to_month-next true (suc (suc (suc (suc (suc (suc (suc (suc (suc (suc (suc zero))))))))))) h k =
    refl
days_to_month-next true (suc (suc (suc (suc (suc (suc (suc (suc (suc (suc (suc (suc zero))))))))))))
      h k =
    refl
days_to_month-next true
      (suc (suc (suc (suc (suc (suc (suc (suc (suc (suc (suc (suc (suc n))))))))))))) h k =
    absurd (omega arith)
days_to_month-next false zero h k = absurd (omega arith)
days_to_month-next false (suc zero) h k = refl
days_to_month-next false (suc (suc zero)) h k = refl
days_to_month-next false (suc (suc (suc zero))) h k = refl
days_to_month-next false (suc (suc (suc (suc zero)))) h k = refl
days_to_month-next false (suc (suc (suc (suc (suc zero))))) h k = refl
days_to_month-next false (suc (suc (suc (suc (suc (suc zero)))))) h k = refl
days_to_month-next false (suc (suc (suc (suc (suc (suc (suc zero))))))) h k = refl
days_to_month-next false (suc (suc (suc (suc (suc (suc (suc (suc zero)))))))) h k = refl
days_to_month-next false (suc (suc (suc (suc (suc (suc (suc (suc (suc zero))))))))) h k = refl
days_to_month-next false (suc (suc (suc (suc (suc (suc (suc (suc (suc (suc zero)))))))))) h k = refl
days_to_month-next false (suc (suc (suc (suc (suc (suc (suc (suc (suc (suc (suc zero))))))))))) h
      k =
    refl
days_to_month-next false
      (suc (suc (suc (suc (suc (suc (suc (suc (suc (suc (suc (suc zero)))))))))))) h k =
    refl
days_to_month-next false
      (suc (suc (suc (suc (suc (suc (suc (suc (suc (suc (suc (suc (suc n))))))))))))) h k =
    absurd (omega arith)

-- The day of a year lies in the month.
pub record InMonth (leap : Bool) (days month : ℕ) : Type 0 where
  pub first : 1 ≤ month
  pub last : month ≤ 12
  pub before : days_to_month leap month < days
  pub within : days ≤ days_to_month leap month + month_days leap month

find_month-stop :
    (left : ℕ) (leap : Bool) (month days : ℕ)
    → days ≤ days_to_month leap month
    → find_month (suc left) leap month days ≡ month
unfolding find_month
find_month-stop left leap month days h = ground arith

find_month-next :
    (left : ℕ) (leap : Bool) (month days : ℕ)
    → days_to_month leap month < days
    → find_month (suc left) leap month days ≡ find_month left leap (month + 1) days
unfolding find_month
find_month-next left leap month days h = ground arith

pub find_month_lem :
    (left : ℕ) (leap : Bool) (month days : ℕ)
    → month + left ≡ 13
    → 1 < month
    → days_to_month leap (month - 1) < days
    → days ≤ length_of_year leap
    → InMonth leap days (find_month left leap month days - 1)
unfolding find_month
find_month_lem zero leap month days hm h1 hb hl =
    let e : month ≡ 13 = omega arith in
    rw e record {
      first = omega arith;
      last = omega arith;
      before = subst (λ m. days_to_month leap (m - 1) < days) e hb;
      within =
          subst (λ t. days ≤ t) (sym (days_to_month-next leap 12 (omega arith) (omega arith))) hl;
    }
find_month_lem (suc left) leap month days hm h1 hb hl =
    elim (dec_lt (days_to_month leap month) days) [
      | yes next ↦
          subst (λ r. InMonth leap days (r - 1)) (sym (find_month-next left leap month days next))
            (find_month_lem left leap (month + 1) days (omega arith) (omega arith)
              (subst (λ m. days_to_month leap m < days) (omega arith) next) hl)
      | no stop ↦
          let e : month - 1 + 1 ≡ month = omega arith in
          let e' : days_to_month leap (month - 1 + 1) ≡ days_to_month leap month =
            ap (days_to_month leap) e in
          subst (λ r. InMonth leap days (r - 1))
            (sym (find_month-stop left leap month days (omega arith)))
            record {
              first = omega arith;
              last = omega arith;
              before = hb;
              within = ground (arith, days_to_month-next leap (month - 1), e');
            }
    ]
