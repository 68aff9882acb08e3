-- ===== src/Utils/Sort/Split.antt =====
-- The second loop of a partition, for either direction: `belongs` tells the values of the first part
-- from those of the second.
use native.Mathlib.Decide.{dec_lt}
use whais.Prelude.{
  ℕ, ◌+◌, ◌-◌, ◌≤◌, ◌<◌, ◌≡◌, ◌≢◌, sym, inl, inr, Bool, true, false, List, arith, length, get_or,
  Bool-cases, if◌then◌else◌,
}
use whais.Prelude.Arrays.{
  Rearranged, Rearranged-trans, Rearranged-exchange, exchange, get_or-exchange, length-exchange,
}

-- Where the ends have met.
abbrev pub boundary : {A : Type 0} → A → (A → Bool) → ℕ × List A → ℕ
boundary d belongs (m, c) = if belongs (get_or c m d) then m + 1 else m

module _ {A : Type 0} (d : A) (belongs : A → Bool) (first last : ℕ) (c₀ : List A) where
  -- What lies left of `from` is of the first part, what lies right of `to` of the second.
  pub record SplitInv (from to : ℕ) (c : List A) : Type 0 where
    pub starts : first ≤ from
    pub ordered : from ≤ to
    pub ends : to ≤ last
    pub fits : last < length c
    pub left : (i : ℕ) → first ≤ i → i < from → belongs (get_or c i d) ≡ true
    pub right : (i : ℕ) → to < i → i ≤ last → belongs (get_or c i d) ≡ false
    pub rearranged : Rearranged d first last c₀ c

  -- The range is cut at the boundary; `p` and `q` show that neither part is empty.
  pub record Cut (b : ℕ) (c : List A) : Type 0 where
    pub above : first < b
    pub within : b ≤ last
    pub rearranged : Rearranged d first last c₀ c
    pub left : (i : ℕ) → first ≤ i → i < b → belongs (get_or c i d) ≡ true
    pub right : (i : ℕ) → b ≤ i → i ≤ last → belongs (get_or c i d) ≡ false

module _ {A : Type 0} {d : A} {belongs : A → Bool} {first last : ℕ} {c₀ : List A} where
  module _ {from to : ℕ} {c : List A} (v : SplitInv d belongs first last c₀ from to c)
      (h : from < to) where
    pub SplitInv-next :
        belongs (get_or c from d) ≡ true → SplitInv d belongs first last c₀ (from + 1) to c
    SplitInv-next b = record {
      starts = omega (arith, v.starts);
      ordered = omega arith;
      ends = v.ends;
      fits = v.fits;
      right = v.right;
      rearranged = v.rearranged;
      left = λ i hi hj. elim (dec_lt i from) [
        | yes old ↦ v.left i hi old
        | no new ↦ let e : i ≡ from = omega arith in rw e b
      ];
    }

    pub SplitInv-previous :
        belongs (get_or c to d) ≡ false → SplitInv d belongs first last c₀ from (to - 1) c
    SplitInv-previous b = record {
      starts = v.starts;
      ordered = omega arith;
      ends = omega (arith, v.ends);
      fits = v.fits;
      left = v.left;
      rearranged = v.rearranged;
      right = λ i hi hj. elim (dec_lt to i) [
        | yes old ↦ v.right i old hj
        | no new ↦ let e : i ≡ to = omega arith in rw e b
      ];
    }

    pub SplitInv-exchange : SplitInv d belongs first last c₀ from to (exchange d c from to)
    SplitInv-exchange = record {
      starts = v.starts;
      ordered = v.ordered;
      ends = v.ends;
      fits = omega (arith, v.fits, length-exchange d c from to);
      left = λ i hi hj. rw (same i (omega arith) (omega arith)) (v.left i hi hj);
      right = λ i hi hj. rw (same i (omega arith) (omega arith)) (v.right i hi hj);
      rearranged = Rearranged-trans d v.rearranged (
          Rearranged-exchange d first last from to c v.starts (omega (arith, v.ends))
            (omega (arith, v.starts)) v.ends v.fits);
    }
      where
        same : (i : ℕ) → i ≢ from → i ≢ to → get_or (exchange d c from to) i d ≡ get_or c i d
        same i p q = ground (arith, get_or-exchange d c from to i, v.fits, v.ends)

    pub exchange-from : get_or (exchange d c from to) from d ≡ get_or c to d
    exchange-from = ground (arith, get_or-exchange d c from to from, v.fits, v.ends)

    pub exchange-to : get_or (exchange d c from to) to d ≡ get_or c from d
    exchange-to = ground (arith, get_or-exchange d c from to to, v.fits, v.ends)

  module _ (p q : ℕ) (hp : first ≤ p) (lp : p ≤ last) (bp : belongs (get_or c₀ p d) ≡ true)
      (hq : first ≤ q) (lq : q ≤ last) (bq : belongs (get_or c₀ q d) ≡ false) where
    Cut-at :
        (b : ℕ) (c : List A)
        → Rearranged d first last c₀ c
        → ((i : ℕ) → first ≤ i → i < b → belongs (get_or c i d) ≡ true)
        → ((i : ℕ) → b ≤ i → i ≤ last → belongs (get_or c i d) ≡ false)
        → Cut d belongs first last c₀ b c
    Cut-at b c r l g = record {
      above = elim (dec_lt first b) [
        | yes h ↦ h
        | no h ↦
            let (k, k1, k2, e) = r.target p hp lp in
            let wrong = g k (omega arith) k2 in
            let right : belongs (get_or c k d) ≡ true = rw (sym e) bp in
            absurd (ground (arith, wrong, right))
      ];
      within = elim (dec_lt last b) [
        | no h ↦ omega arith
        | yes h ↦
            let (k, k1, k2, e) = r.target q hq lq in
            let wrong = l k k1 (omega arith) in
            let right : belongs (get_or c k d) ≡ false = rw (sym e) bq in
            absurd (ground (arith, wrong, right))
      ];
      rearranged = r;
      left = l;
      right = g;
    }

    pub SplitInv-Cut :
        {m : ℕ} {c : List A}
        → SplitInv d belongs first last c₀ m m c
        → Cut d belongs first last c₀ (boundary d belongs (m, c)) c
    SplitInv-Cut {m} {c} v = elim (Bool-cases (belongs (get_or c m d))) [
      | inl e ↦ rw e (
          Cut-at (m + 1) c v.rearranged
            (λ i hi hj. elim (dec_lt i m) [
              | yes old ↦ v.left i hi old
              | no new ↦ let e' : i ≡ m = omega arith in rw e' e
            ])
            (λ i hi hj. v.right i (omega arith) hj))
      | inr e ↦ rw e (
          Cut-at m c v.rearranged v.left (λ i hi hj. elim (dec_lt m i) [
            | yes old ↦ v.right i old hj
            | no new ↦ let e' : i ≡ m = omega arith in rw e' e
          ]))
    ]
