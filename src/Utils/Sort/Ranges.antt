-- ===== src/Utils/Sort/Ranges.antt =====
-- What the sort promises of a range, and how two sorted parts make a sorted range.
use native.Mathlib.Decide.{dec_lt}
use whais.Prelude.{
  ℕ, ◌+◌, ◌-◌, ◌≤◌, ◌<◌, zero, suc, ◌≡◌, ◌∙◌, Bool, true, false, Option, none, some, List, arith,
  get_or,
}
use whais.Prelude.Arrays.{Rearranged}
use whais.Utils.Sort.{Less, Parts, already_sorted, parts}

module _ {A : Type 0} (o : Less A) where
  open o use {less, asymm, not_less_trans}

  -- The first value may not stand before the second.
  abbrev pub misplaced : Bool → A → A → Bool
  misplaced false a b = less b a
  misplaced true a b = less a b

  pub less_irrefl : (a : A) → less a a ≡ false
  less_irrefl a = ground (arith, asymm a a)

  pub less_trans : (a b c : A) → less a b ≡ true → less b c ≡ true → less a c ≡ true
  less_trans a b c p q = ground (arith, asymm b c q, not_less_trans a c b, p)

  pub less-not_less : (a b c : A) → less a b ≡ true → less c b ≡ false → less a c ≡ true
  less-not_less a b c p q = ground (arith, not_less_trans a c b)

  pub not_less-less : (a b c : A) → less b a ≡ false → less b c ≡ true → less a c ≡ true
  not_less-less a b c p q = ground (arith, not_less_trans b a c)

  misplaced_trans :
      (reverse : Bool) (a b c : A)
      → misplaced reverse a b ≡ false
      → misplaced reverse b c ≡ false
      → misplaced reverse a c ≡ false
  misplaced_trans false a b c p q = not_less_trans c b a q p
  misplaced_trans true a b c p q = not_less_trans a b c p q

module _ {A : Type 0} (o : Less A) (d : A) where
  -- No value of the range stands before one that it may not precede.
  abbrev pub SortedOn : Bool → ℕ → ℕ → List A → Type 0
  SortedOn reverse from to c =
      (i j : ℕ)
      → from ≤ i
      → i < j
      → j ≤ to
      → misplaced o reverse (get_or c i d) (get_or c j d) ≡ false

  -- A range cut in two, neither part empty, with no value of the first misplaced before the second.
  pub record Partitioned (reverse : Bool) (from to pivot : ℕ) (c c' : List A) : Type 0 where
    pub above : from < pivot
    pub within : pivot ≤ to
    pub rearranged : Rearranged d from to c c'
    pub apart :
        (i j : ℕ)
        → from ≤ i
        → i < pivot
        → pivot ≤ j
        → j ≤ to
        → misplaced o reverse (get_or c' i d) (get_or c' j d) ≡ false

  -- What a partition returns.
  abbrev pub IsPartition : Bool → ℕ → ℕ → List A → Option (Parts A) → Type 0
  IsPartition reverse from to c none = ⊥
  IsPartition reverse from to c (some already_sorted) = SortedOn reverse from to c
  IsPartition reverse from to c (some (parts pivot c')) = Partitioned reverse from to pivot c c'

  -- Neighbours in order are enough.
  pub SortedOn-neighbours :
      (reverse : Bool) (from to : ℕ) (c : List A)
      → ((i : ℕ)
          → from ≤ i
          → i < to
          → misplaced o reverse (get_or c i d) (get_or c (i + 1) d) ≡ false)
      → SortedOn reverse from to c
  SortedOn-neighbours reverse from to c near i j hi hj ht =
      reach (j - i - 1) i j hi (omega arith) ht
    where
      reach :
          (n i j : ℕ)
          → from ≤ i
          → j ≡ i + n + 1
          → j ≤ to
          → misplaced o reverse (get_or c i d) (get_or c j d) ≡ false
      reach zero i j hi e ht =
          let next : j ≡ i + 1 = omega arith in rw next (near i hi (omega arith))
      reach (suc n) i j hi e ht =
          misplaced_trans o reverse (get_or c i d) (get_or c (i + 1) d) (get_or c j d)
            (near i hi (omega arith)) (reach n (i + 1) j (omega arith) (omega arith) ht)

  module _ {reverse : Bool} {from to pivot : ℕ} {c c' low high : List A} where
    pub SortedOn-parts :
        Partitioned reverse from to pivot c c'
        → Rearranged d from (pivot - 1) c' low
        → SortedOn reverse from (pivot - 1) low
        → Rearranged d pivot to low high
        → SortedOn reverse pivot to high
        → SortedOn reverse from to high
    SortedOn-parts p rl sl rh sh i j hi hj ht = elim (dec_lt i pivot) [
      | no up ↦ sh i j (omega arith) hj ht
      | yes down ↦ elim (dec_lt j pivot) [
        | yes both ↦ rw (rh.before i down, rh.before j both) (sl i j hi hj (omega arith))
        | no split ↦
            let (m, m1, m2, e) = rl.origin i hi (omega arith) in
            let (n, n1, n2, e') = rh.origin j (omega arith) ht in
            let at_i : get_or high i d ≡ get_or c' m d = rh.before i down ∙ e in
            let at_j : get_or high j d ≡ get_or c' n d = e' ∙ rl.after n (omega arith) in
            rw (at_i, at_j) (p.apart m n m1 (omega arith) n1 n2)
      ]
    ]
