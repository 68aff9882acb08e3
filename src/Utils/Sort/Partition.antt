-- ===== src/Utils/Sort/Partition.antt =====
-- `partition`: its first loop finds a range in order or a value below its pivot, and its second loop
-- parts the range at the pivot.
use native.Mathlib.Decide.{dec_lt}
use whais.Prelude.{
  ℕ, zero, suc, ◌+◌, ◌-◌, ◌*◌, ◌≤◌, ◌<◌, ◌≡◌, inl, inr, true, false, Option, none, some, List,
  arith, length, get_or, Bool-cases, ltb, ltb→lt, ltb-false, if◌then◌else◌, subst,
}
use whais.Prelude.Arrays.{Rearranged-refl, Rearranged-widen, exchange}
use whais.Utils.Sort.{
  Less, Scan, in_order, pivot_at, scan, split_round, split, first_high, partition_from, partition,
}
use whais.Utils.Sort.Split.{
  SplitInv, SplitInv-next, SplitInv-previous, SplitInv-exchange, exchange-from, Cut, SplitInv-Cut,
}
use whais.Utils.Sort.Ranges.{
  SortedOn, SortedOn-neighbours, Partitioned, IsPartition, less_irrefl, less_trans, less-not_less,
  not_less-less,
}

module _ {A : Type 0} (o : Less A) (d : A) where
  open o use {less, asymm, not_less_trans}

  module _ (c : List A) (start to : ℕ) where
    -- Below the pivot everything is smaller, from it on everything seen is level with it.
    record ScanInv (from pivot_index : ℕ) : Type 0 where
      inside : start ≤ pivot_index
      seen : pivot_index < from
      below :
          (i : ℕ)
          → start ≤ i
          → i < pivot_index
          → less (get_or c i d) (get_or c pivot_index d) ≡ true
      level_down :
          (i : ℕ)
          → pivot_index ≤ i
          → i < from
          → less (get_or c i d) (get_or c pivot_index d) ≡ false
      level_up :
          (i : ℕ)
          → pivot_index ≤ i
          → i < from
          → less (get_or c pivot_index d) (get_or c i d) ≡ false
      ascending :
          (i : ℕ) → start ≤ i → i + 1 < from → less (get_or c (i + 1) d) (get_or c i d) ≡ false

    -- A value below the pivot stands above it.
    abbrev Scanned : Scan → Type 0
    Scanned in_order = SortedOn o d false start to c
    Scanned (pivot_at p) =
        (start ≤ p)
        × (p < to)
        × ((i : ℕ) → start ≤ i → i < p → less (get_or c i d) (get_or c p d) ≡ true)
        × (j : ℕ) × (p < j)
        × (j ≤ to)
        × (less (get_or c j d) (get_or c p d) ≡ true)

    ScanInv-raised :
        {from p : ℕ}
        → ScanInv from p
        → less (get_or c p d) (get_or c from d) ≡ true
        → ScanInv (from + 1) from
    ScanInv-raised {from} {p} v up = record {
      inside = omega arith;
      seen = omega arith;
      below = low;
      level_down =
          λ i hi hj. let e : i ≡ from = omega arith in rw e (less_irrefl o (get_or c from d));
      level_up =
          λ i hi hj. let e : i ≡ from = omega arith in rw e (less_irrefl o (get_or c from d));
      ascending = λ i hi hj. elim (dec_lt (i + 1) from) [
        | yes old ↦ v.ascending i hi old
        | no new ↦
            let e : i + 1 ≡ from = omega arith in
            rw e (asymm (get_or c i d) (get_or c from d) (low i hi (omega arith)))
      ];
    }
      where
        low : (i : ℕ) → start ≤ i → i < from → less (get_or c i d) (get_or c from d) ≡ true
        low i hi hj = elim (dec_lt i p) [
          | yes l ↦ less_trans o (get_or c i d) (get_or c p d) (get_or c from d) (v.below i hi l) up
          | no l ↦
              not_less-less o (get_or c i d) (get_or c p d) (get_or c from d)
                (v.level_up i (omega arith) hj) up
        ]

    ScanInv-kept :
        {from p : ℕ}
        → ScanInv from p
        → less (get_or c p d) (get_or c from d) ≡ false
        → less (get_or c from d) (get_or c (from - 1) d) ≡ false
        → ScanInv (from + 1) p
    ScanInv-kept {from} {p} v not_up not_down = record {
      inside = v.inside;
      seen = omega arith;
      below = v.below;
      level_down = λ i hi hj. elim (dec_lt i from) [
        | yes old ↦ v.level_down i hi old
        | no new ↦
            let e : i ≡ from = omega arith in
            rw e (
              not_less_trans (get_or c from d) (get_or c (from - 1) d) (get_or c p d) not_down
                (v.level_down (from - 1) (omega (arith, v.seen)) (omega (arith, v.seen))))
      ];
      level_up = λ i hi hj. elim (dec_lt i from) [
        | yes old ↦ v.level_up i hi old
        | no new ↦ let e : i ≡ from = omega arith in rw e not_up
      ];
      ascending = λ i hi hj. elim (dec_lt (i + 1) from) [
        | yes old ↦ v.ascending i hi old
        | no new ↦
            let e : i + 1 ≡ from = omega arith in
            let e' : i ≡ from - 1 = omega arith in rw (e, e') not_down
      ];
    }

    -- A descent from the value before is a descent below the pivot.
    Scanned-descent :
        {from p : ℕ}
        → ScanInv from p
        → from ≤ to
        → less (get_or c from d) (get_or c (from - 1) d) ≡ true
        → Scanned (pivot_at p)
    Scanned-descent {from} {p} v h down = (
      v.inside,
      omega (arith, v.seen),
      v.below,
      from,
      v.seen,
      h,
      less-not_less o (get_or c from d) (get_or c (from - 1) d) (get_or c p d) down
          (v.level_up (from - 1) (omega (arith, v.seen)) (omega (arith, v.seen))),
    )

    scan_lem :
        (left from p : ℕ) → from + left ≡ to + 1 → ScanInv from p → Scanned (scan o d c left from p)
    unfolding scan
    scan_lem zero from p e v =
        SortedOn-neighbours o d false start to c (λ i hi hj. v.ascending i hi (omega arith))
    scan_lem (suc left) from p e v = elim (Bool-cases (less (get_or c p d) (get_or c from d))) [
      | inl up ↦ rw up (scan_lem left (from + 1) from (omega arith) (ScanInv-raised v up))
      | inr not_up ↦ elim (Bool-cases (less (get_or c from d) (get_or c (from - 1) d))) [
        | inl down ↦ rw (not_up, down) (Scanned-descent v (omega arith) down)
        | inr not_down ↦
            rw (not_up, not_down)
              (scan_lem left (from + 1) p (omega arith) (ScanInv-kept v not_up not_down))
      ]
    ]

  module _ (pivot : A) (first last : ℕ) (c₀ : List A) where
    abbrev Inv : ℕ → ℕ → List A → Type 0
    Inv = SplitInv d (λ x. less x pivot) first last c₀

    -- The rounds left: an exchange is followed by a step of `from`.
    abbrev rounds : ℕ → ℕ → List A → ℕ
    rounds from to c = 2 * (to - from) + (if less (get_or c from d) pivot then 0 else 1)

    abbrev Stepped : ℕ → ℕ × ℕ × List A → Type 0
    Stepped n (from, to, c) = Inv from to c × (rounds from to c < n)

    split_round_lem :
        (from to : ℕ) (c : List A)
        → Inv from to c
        → from < to
        → Stepped (rounds from to c) (split_round o d pivot from to c)
    unfolding split_round
    split_round_lem from to c v h = elim (Bool-cases (less (get_or c from d) pivot)) [
      | inl small ↦ rw small (SplitInv-next v h small, ground arith)
      | inr big ↦ elim (Bool-cases (less (get_or c to d) pivot)) [
        | inr stays ↦ rw (big, stays) (SplitInv-previous v h stays, ground arith)
        | inl moves ↦
            let now : less (get_or (exchange d c from to) from d) pivot ≡ true =
              rw (exchange-from v h) moves in
            rw (big, moves) (SplitInv-exchange v h, rw now (omega arith))
      ]
    ]

    abbrev Met : Option (ℕ × List A) → Type 0
    Met none = ⊥
    Met (some (m, c)) = Inv m m c

    -- With as many rounds of fuel as are left the two ends meet.
    split_lem :
        (fuel from to : ℕ) (c : List A)
        → rounds from to c ≤ fuel
        → from < to
        → Inv from to c
        → Met (split o d fuel pivot from to c)
    unfolding split
    split_lem zero from to c e h v = absurd (omega arith)
    split_lem (suc fuel) from to c e h v =
        let (from', to', c') = split_round o d pivot from to c in
        let (v', fewer) = split_round_lem from to c v h in
        elim (Bool-cases (ltb from' to')) [
          | inl more ↦
              rw more (split_lem fuel from' to' c' (omega arith) (ltb→lt from' to' more) v')
          | inr done ↦
              let e : to' ≡ from' = omega (arith, v'.ordered, ltb-false from' to' done) in
              rw done (subst (λ t. Inv from' t c') e v')
        ]

  module _ (c : List A) (from to : ℕ) (fits : to < length c) where
    -- The part below the pivot reaches down to the start of the range: the first loop has shown it.
    Cut-Partitioned :
        (p b : ℕ) (c' : List A)
        → from ≤ p
        → ((i : ℕ) → from ≤ i → i < p → less (get_or c i d) (get_or c p d) ≡ true)
        → Cut d (λ x. less x (get_or c p d)) p to c b c'
        → Partitioned o d false from to b c c'
    Cut-Partitioned p b c' hp below u = record {
      above = omega (arith, u.above);
      within = u.within;
      rearranged = Rearranged-widen d hp (omega arith) u.rearranged;
      apart = λ i j hi hj kj lj.
          let small : less (get_or c' i d) (get_or c p d) ≡ true = elim (dec_lt i p) [
            | yes early ↦ rw (u.rearranged.before i early) (below i hi early)
            | no late ↦ u.left i (omega arith) hj
          ] in
          asymm (get_or c' i d) (get_or c' j d) (
            less-not_less o (get_or c' i d) (get_or c p d) (get_or c' j d) small (u.right j kj lj));
    }

    partition_from_lem :
        (s : Scan)
        → Scanned c from to s
        → IsPartition o d false from to c (partition_from o d c to s)
    unfolding partition_from
    partition_from_lem in_order h = h
    partition_from_lem (pivot_at p) (hp, lp, below, j, pj, lj, down) =
        finish (split o d (2 * (to - p) + 2) (get_or c p d) p to c)
          (split_lem (get_or c p d) p to c (2 * (to - p) + 2) p to c (ground arith) lp start)
      where
        start : Inv (get_or c p d) p to c p to c
        start = record {
          starts = omega arith;
          ordered = omega arith;
          ends = omega arith;
          fits = fits;
          left = λ i hi hj. absurd (omega arith);
          right = λ i hi hj. absurd (omega arith);
          rearranged = Rearranged-refl d p to c;
        }

        finish :
            (r : Option (ℕ × List A))
            → Met (get_or c p d) p to c r
            → IsPartition o d false from to c
                (elim r [ none ↦ none | some x ↦ some (first_high o d (get_or c p d) x) ])
        finish none h = h
        finish (some (m, c')) h = Cut-Partitioned p _ c' hp below (
            SplitInv-Cut j p (omega arith) lj down (omega arith) (omega arith)
              (less_irrefl o (get_or c p d)) h)

    -- `partition` of a range of at least two places of the container returns: either the range is in
    -- order, or it is cut at an index above its first and not above its last, no value of the first
    -- part misplaced before one of the second; the values are rearranged within the range.
    pub partition_lem : from < to → IsPartition o d false from to c (partition o d from to c)
    unfolding partition
    partition_lem h = partition_from_lem (scan o d c (to - from) (from + 1) from) (
        scan_lem c from to (to - from) (from + 1) from (omega arith) record {
          inside = omega arith;
          seen = omega arith;
          below = λ i hi hj. absurd (omega arith);
          level_down =
              λ i hi hj. let e : i ≡ from = omega arith in rw e (less_irrefl o (get_or c from d));
          level_up =
              λ i hi hj. let e : i ≡ from = omega arith in rw e (less_irrefl o (get_or c from d));
          ascending = λ i hi hj. absurd (omega arith);
        })
