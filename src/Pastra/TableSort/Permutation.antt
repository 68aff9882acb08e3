-- ===== src/Pastra/TableSort/Permutation.antt =====
-- The vector of row numbers of a `SortTableContainer`: a permutation of the rows, and how many rows
-- of it are not in their place.
use mathlib.Core.List.{Mem, Nodup, Nodup-cons, Nodup-nil, mem-cons, mem-cons_self, not-mem-nil}
use mathlib.Core.List.Perm
use mathlib.Core.Logic.Or
use native.Mathlib.Bridge.{le_prop}
use native.Mathlib.Decide.{dec_lt}
use whais.Prelude.{
  ℕ, zero, suc, ◌+◌, ◌≤◌, ◌<◌, ◌≡◌, ◌≢◌, refl, sym, ◌∙◌, List, [], ◌∷◌, arith, length, get_or, set,
  ◌==◌, if◌then◌else◌,
}
use whais.Prelude.Arrays.{Rearranged}
use whais.Pastra.TableSort.{in_place}

-- The rows that are not in their place, the first row of the list being `first`.
pub unsettled : ℕ → List ℕ → ℕ
unsettled first [] = 0
unsettled first (row ∷ rows) = (if row == first then 0 else 1) + unsettled (first + 1) rows

pub unsettled-le : (first : ℕ) (rows : List ℕ) → unsettled first rows ≤ length rows
unfolding unsettled
unsettled-le first [] = omega arith
unsettled-le first (row ∷ rows) = ground (arith, unsettled-le (first + 1) rows)

-- A row that is put in its place was not, or nothing changes.
pub unsettled-set :
    (first i : ℕ) (rows : List ℕ)
    → i < length rows
    → get_or rows i 0 ≢ first + i
    → unsettled first (set rows i (first + i)) + 1 ≡ unsettled first rows
unfolding unsettled
unsettled-set first i [] h n = absurd (omega arith)
unsettled-set first zero (row ∷ rows) h n = ground arith
unsettled-set first (suc i) (row ∷ rows) h n =
    let e : first + 1 + i ≡ first + suc i = omega arith in
    let ih = unsettled-set (first + 1) i rows (omega arith) (λ k. n (k ∙ e)) in
    let ih' : unsettled (first + 1) (set rows i (first + suc i)) + 1 ≡ unsettled (first + 1) rows =
      rw e at ih in
    omega (arith, ih')

-- Every row stands in exactly one place.
pub record IsPermutation (n : ℕ) (rows : List ℕ) : Type 0 where
  pub size : length rows ≡ n
  pub bounded : (i : ℕ) → i < n → get_or rows i 0 < n
  pub injective : (i j : ℕ) → i < n → j < n → get_or rows i 0 ≡ get_or rows j 0 → i ≡ j

pub length-in_place : (row n : ℕ) → length (in_place row n) ≡ n
unfolding in_place
length-in_place row zero = refl
length-in_place row (suc n) = omega (arith, length-in_place (row + 1) n)

pub get_or-in_place : (row n i d : ℕ) → i < n → get_or (in_place row n) i d ≡ row + i
unfolding in_place
get_or-in_place row zero i d h = absurd (omega arith)
get_or-in_place row (suc n) zero d h = omega arith
get_or-in_place row (suc n) (suc i) d h = omega (arith, get_or-in_place (row + 1) n i d)

mem-in_place : (row n x : ℕ) → Mem x (in_place row n) → row ≤ x
unfolding in_place
mem-in_place row zero x m = absurd (not-mem-nil m)
mem-in_place row (suc n) x m =
    Or.elim le_prop (mem-cons.0 m) (λ e. omega arith)
      (λ t. omega (arith, mem-in_place (row + 1) n x t))

Nodup-in_place : (row n : ℕ) → Nodup (in_place row n)
unfolding in_place
Nodup-in_place row zero = Nodup-nil
Nodup-in_place row (suc n) =
    Nodup-cons.1
      ((λ m. absurd (omega (arith, mem-in_place (row + 1) n row m))), Nodup-in_place (row + 1) n)

mem-get_or : (xs : List ℕ) (i d : ℕ) → i < length xs → Mem (get_or xs i d) xs
mem-get_or [] i d h = absurd (omega arith)
mem-get_or (x ∷ xs) zero d h = mem-cons_self
mem-get_or (x ∷ xs) (suc i) d h = mem-cons.1 (Or.inr (mem-get_or xs i d (omega arith)))

get_or-injective :
    (xs : List ℕ) (i j d : ℕ)
    → Nodup xs
    → i < length xs
    → j < length xs
    → get_or xs i d ≡ get_or xs j d
    → i ≡ j
get_or-injective [] i j d u hi hj e = absurd (omega arith)
get_or-injective (x ∷ xs) zero zero d u hi hj e = refl
get_or-injective (x ∷ xs) zero (suc j) d u hi hj e =
    absurd ((Nodup-cons.0 u).0 (rw e (mem-get_or xs j d (omega arith))))
get_or-injective (x ∷ xs) (suc i) zero d u hi hj e =
    absurd ((Nodup-cons.0 u).0 (rw (sym e) (mem-get_or xs i d (omega arith))))
get_or-injective (x ∷ xs) (suc i) (suc j) d u hi hj e =
    omega (arith, get_or-injective xs i j d (Nodup-cons.0 u).1 (omega arith) (omega arith) e)

-- What a sort of a range makes of the rows in their places.
pub Rearranged-IsPermutation :
    (n from to : ℕ) (rows : List ℕ)
    → to < n
    → Rearranged 0 from to (in_place 0 n) rows
    → IsPermutation n rows
Rearranged-IsPermutation n from to rows h r = record {
  size = r.size ∙ length-in_place 0 n;
  bounded = λ i hi. elim (dec_lt i from) [
    | yes low ↦ omega (arith, r.before i low, get_or-in_place 0 n i 0)
    | no not_low ↦ elim (dec_lt to i) [
      | yes high ↦ omega (arith, r.after i high, get_or-in_place 0 n i 0)
      | no not_high ↦
          let (k, k1, k2, e) = r.origin i (omega arith) (omega arith) in
          omega (arith, e, get_or-in_place 0 n k 0)
    ]
  ];
  injective = λ i j hi hj e.
      get_or-injective rows i j 0 (Perm.nodup r.perm (Nodup-in_place 0 n))
        (omega (arith, r.size, length-in_place 0 n)) (omega (arith, r.size, length-in_place 0 n)) e;
}
