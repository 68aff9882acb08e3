-- ===== src/Utils/Sort/Reverse.antt =====
-- `partition_reverse`: the same from the other end, for a descending order.
use native.Mathlib.Decide.{dec_lt}
use whais.Prelude.{
  ℕ, zero, suc, ◌+◌, ◌-◌, ◌*◌, ◌≤◌, ◌<◌, ◌≡◌, refl, ap, inl, inr, true, false, not, Option, none,
  some, List, arith, length, get_or, Bool-cases, ltb, ltb→lt, ltb-false, not-true, not-false,
  if◌then◌else◌, subst,
}
use whais.Prelude.Arrays.{Rearranged-refl, Rearranged-widen, exchange}
use whais.Utils.Sort.{
  Less, Scan, in_order, pivot_at, scan_reverse, split_round_reverse, split_reverse, first_low,
  partition_reverse_from, partition_reverse,
}
use whais.Utils.Sort.Split.{
  SplitInv, SplitInv-next, SplitInv-previous, SplitInv-exchange, exchange-to, Cut, SplitInv-Cut,
}
use whais.Utils.Sort.Ranges.{
  SortedOn, SortedOn-neighbours, Partitioned, IsPartition, less_irrefl, less_trans, less-not_less,
  not_less-less,
}

module _ {A : Type 0} (o : Less A) (d : A) where
  open o use {less, asymm, not_less_trans}

  module _ (c : List A) (from last : ℕ) where
    -- `edge` is the lowest place seen. Above the pivot everything is smaller, between the two
    -- everything is level with it.
    record ScanInv (edge pivot_index : ℕ) : Type 0 where
      inside : pivot_index ≤ last
      seen : edge ≤ pivot_index
      beyond :
          (i : ℕ) → pivot_index < i → i ≤ last → less (get_or c i d) (get_or c pivot_index d) ≡ true
      level_down :
          (i : ℕ)
          → edge ≤ i
          → i ≤ pivot_index
          → less (get_or c i d) (get_or c pivot_index d) ≡ false
      level_up :
          (i : ℕ)
          → edge ≤ i
          → i ≤ pivot_index
          → less (get_or c pivot_index d) (get_or c i d) ≡ false
      descending : (i : ℕ) → edge ≤ i → i < last → less (get_or c i d) (get_or c (i + 1) d) ≡ false

    -- A value below the pivot stands below its place.
    abbrev Scanned : Scan → Type 0
    Scanned in_order = SortedOn o d true from last c
    Scanned (pivot_at p) =
        (p ≤ last)
        × (from < p)
        × ((i : ℕ) → p < i → i ≤ last → less (get_or c i d) (get_or c p d) ≡ true)
        × (j : ℕ) × (from ≤ j)
        × (j < p)
        × (less (get_or c j d) (get_or c p d) ≡ true)

    module _ {to p : ℕ} (v : ScanInv (to + 1) p) where
      ScanInv-raised : less (get_or c p d) (get_or c to d) ≡ true → ScanInv to to
      ScanInv-raised up = record {
        inside = omega (arith, v.inside, v.seen);
        seen = omega arith;
        beyond = low;
        level_down =
            λ i hi hj. let e : i ≡ to = omega arith in rw e (less_irrefl o (get_or c to d));
        level_up = λ i hi hj. let e : i ≡ to = omega arith in rw e (less_irrefl o (get_or c to d));
        descending = λ i hi hj. elim (dec_lt to i) [
          | yes old ↦ v.descending i (omega arith) hj
          | no new ↦
              let e : i ≡ to = omega arith in
              rw e (
                asymm (get_or c (to + 1) d) (get_or c to d)
                  (low (to + 1) (omega arith) (omega arith)))
        ];
      }
        where
          low : (i : ℕ) → to < i → i ≤ last → less (get_or c i d) (get_or c to d) ≡ true
          low i hi hj = elim (dec_lt p i) [
            | yes l ↦
                less_trans o (get_or c i d) (get_or c p d) (get_or c to d) (v.beyond i l hj) up
            | no l ↦
                not_less-less o (get_or c i d) (get_or c p d) (get_or c to d)
                  (v.level_up i (omega arith) (omega arith)) up
          ]

      ScanInv-kept :
          less (get_or c p d) (get_or c to d) ≡ false
          → less (get_or c to d) (get_or c (to + 1) d) ≡ false
          → ScanInv to p
      ScanInv-kept not_up not_down = record {
        inside = v.inside;
        seen = omega (arith, v.seen);
        beyond = v.beyond;
        level_down = λ i hi hj. elim (dec_lt to i) [
          | yes old ↦ v.level_down i (omega arith) hj
          | no new ↦
              let e : i ≡ to = omega arith in
              rw e (
                not_less_trans (get_or c to d) (get_or c (to + 1) d) (get_or c p d) not_down
                  (v.level_down (to + 1) (omega arith) v.seen))
        ];
        level_up = λ i hi hj. elim (dec_lt to i) [
          | yes old ↦ v.level_up i (omega arith) hj
          | no new ↦ let e : i ≡ to = omega arith in rw e not_up
        ];
        descending = λ i hi hj. elim (dec_lt to i) [
          | yes old ↦ v.descending i (omega arith) hj
          | no new ↦ let e : i ≡ to = omega arith in rw e not_down
        ];
      }

      -- A descent from the value above is a descent below the pivot.
      Scanned-descent :
          from ≤ to → less (get_or c to d) (get_or c (to + 1) d) ≡ true → Scanned (pivot_at p)
      Scanned-descent h down = (
        v.inside,
        omega (arith, v.seen),
        v.beyond,
        to,
        h,
        omega (arith, v.seen),
        less-not_less o (get_or c to d) (get_or c (to + 1) d) (get_or c p d) down
            (v.level_up (to + 1) (omega arith) v.seen),
      )

    scan_reverse_lem :
        (left edge p : ℕ)
        → edge ≡ from + left
        → ScanInv edge p
        → Scanned (scan_reverse o d c from left p)
    unfolding scan_reverse
    scan_reverse_lem zero edge p e v =
        SortedOn-neighbours o d true from last c (λ i hi hj. v.descending i (omega arith) hj)
    scan_reverse_lem (suc left) edge p e v =
        let e' : edge ≡ from + left + 1 = omega arith in
        let w = subst (λ t. ScanInv t p) e' v in
        elim (Bool-cases (less (get_or c p d) (get_or c (from + left) d))) [
          | inl up ↦
              rw up (scan_reverse_lem left (from + left) (from + left) refl (ScanInv-raised w up))
          | inr not_up ↦
              elim (Bool-cases (less (get_or c (from + left) d) (get_or c (from + left + 1) d))) [
                | inl down ↦ rw (not_up, down) (Scanned-descent w (omega arith) down)
                | inr not_down ↦
                    rw (not_up, not_down)
                      (scan_reverse_lem left (from + left) p refl (ScanInv-kept w not_up not_down))
              ]
        ]

  module _ (pivot : A) (first last : ℕ) (c₀ : List A) where
    abbrev Inv : ℕ → ℕ → List A → Type 0
    Inv = SplitInv d (λ x. not (less x pivot)) first last c₀

    -- The rounds left: an exchange is followed by a step of `to`.
    abbrev rounds : ℕ → ℕ → List A → ℕ
    rounds from to c = 2 * (to - from) + (if less (get_or c to d) pivot then 0 else 1)

    abbrev Stepped : ℕ → ℕ × ℕ × List A → Type 0
    Stepped n (from, to, c) = Inv from to c × (rounds from to c < n)

    split_round_reverse_lem :
        (from to : ℕ) (c : List A)
        → Inv from to c
        → from < to
        → Stepped (rounds from to c) (split_round_reverse o d pivot from to c)
    unfolding split_round_reverse
    split_round_reverse_lem from to c v h = elim (Bool-cases (less (get_or c to d) pivot)) [
      | inl small ↦ rw small (SplitInv-previous v h (ap not small), ground arith)
      | inr big ↦ elim (Bool-cases (less (get_or c from d) pivot)) [
        | inr stays ↦ rw (big, stays) (SplitInv-next v h (ap not stays), ground arith)
        | inl moves ↦
            let now : less (get_or (exchange d c from to) to d) pivot ≡ true =
              rw (exchange-to v h) moves in
            rw (big, moves) (SplitInv-exchange v h, rw now (omega arith))
      ]
    ]

    abbrev Met : Option (ℕ × List A) → Type 0
    Met none = ⊥
    Met (some (m, c)) = Inv m m c

    -- With as many rounds of fuel as are left the two ends meet.
    split_reverse_lem :
        (fuel from to : ℕ) (c : List A)
        → rounds from to c ≤ fuel
        → from < to
        → Inv from to c
        → Met (split_reverse o d fuel pivot from to c)
    unfolding split_reverse
    split_reverse_lem zero from to c e h v = absurd (omega arith)
    split_reverse_lem (suc fuel) from to c e h v =
        let (from', to', c') = split_round_reverse o d pivot from to c in
        let (v', fewer) = split_round_reverse_lem from to c v h in
        elim (Bool-cases (ltb from' to')) [
          | inl more ↦
              rw more (split_reverse_lem fuel from' to' c' (omega arith) (ltb→lt from' to' more) v')
          | inr done ↦
              let e : from' ≡ to' = omega (arith, v'.ordered, ltb-false from' to' done) in
              rw done (subst (λ t. Inv t to' c') e v')
        ]

  module _ (c : List A) (from to : ℕ) (fits : to < length c) where
    -- The part below the pivot reaches up to the end of the range: the first loop has shown it.
    Cut-Partitioned :
        (p b : ℕ) (c' : List A)
        → p ≤ to
        → ((i : ℕ) → p < i → i ≤ to → less (get_or c i d) (get_or c p d) ≡ true)
        → Cut d (λ x. not (less x (get_or c p d))) from p c b c'
        → Partitioned o d true from to b c c'
    Cut-Partitioned p b c' hp beyond u = record {
      above = u.above;
      within = omega (arith, u.within);
      rearranged = Rearranged-widen d (omega arith) hp u.rearranged;
      apart = λ i j hi hj kj lj.
          let small : less (get_or c' j d) (get_or c p d) ≡ true = elim (dec_lt p j) [
            | yes late ↦ rw (u.rearranged.after j late) (beyond j late lj)
            | no early ↦ not-false _ (u.right j kj (omega arith))
          ] in
          asymm (get_or c' j d) (get_or c' i d) (
            less-not_less o (get_or c' j d) (get_or c p d) (get_or c' i d) small
              (not-true _ (u.left i hi hj)));
    }

    partition_reverse_from_lem :
        (s : Scan)
        → Scanned c from to s
        → IsPartition o d true from to c (partition_reverse_from o d c from s)
    unfolding partition_reverse_from
    partition_reverse_from_lem in_order h = h
    partition_reverse_from_lem (pivot_at p) (hp, lp, beyond, j, pj, lj, down) =
        finish (split_reverse o d (2 * (p - from) + 2) (get_or c p d) from p c) (
          split_reverse_lem (get_or c p d) from p c (2 * (p - from) + 2) from p c (ground arith) lp
            start)
      where
        start : Inv (get_or c p d) from p c from p c
        start = record {
          starts = omega arith;
          ordered = omega arith;
          ends = omega arith;
          fits = omega arith;
          left = λ i hi hj. absurd (omega arith);
          right = λ i hi hj. absurd (omega arith);
          rearranged = Rearranged-refl d from p c;
        }

        finish :
            (r : Option (ℕ × List A))
            → Met (get_or c p d) from p c r
            → IsPartition o d true from to c
                (elim r [ none ↦ none | some x ↦ some (first_low o d (get_or c p d) x) ])
        finish none h = h
        finish (some (m, c')) h = Cut-Partitioned p _ c' hp beyond (
            SplitInv-Cut p j (omega arith) (omega arith) (ap not (less_irrefl o (get_or c p d))) pj
              (omega arith) (ap not down) h)

    -- `partition_reverse` of a range of at least two places of the container returns: either the range
    -- is in descending order, or it is cut at an index above its first and not above its last, no
    -- value of the first part below one of the second; the values are rearranged within the range.
    pub partition_reverse_lem :
        from < to → IsPartition o d true from to c (partition_reverse o d from to c)
    unfolding partition_reverse
    partition_reverse_lem h = partition_reverse_from_lem (scan_reverse o d c from (to - from) to) (
        scan_reverse_lem c from to (to - from) to to (omega arith) record {
          inside = omega arith;
          seen = omega arith;
          beyond = λ i hi hj. absurd (omega arith);
          level_down =
              λ i hi hj. let e : i ≡ to = omega arith in rw e (less_irrefl o (get_or c to d));
          level_up =
              λ i hi hj. let e : i ≡ to = omega arith in rw e (less_irrefl o (get_or c to d));
          descending = λ i hi hj. absurd (omega arith);
        })
