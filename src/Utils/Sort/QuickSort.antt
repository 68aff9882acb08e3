-- ===== src/Utils/Sort/QuickSort.antt =====
-- `quick_sort`: each range taken from the stack is sorted before the ranges under it are looked at,
-- in fewer rounds than it has values.
use whais.Prelude.{
  ℕ, zero, suc, ◌+◌, ◌-◌, ◌≤◌, ◌<◌, ◌≡◌, refl, ap, ◌∙◌, inl, inr, Bool, true, false, Option, none,
  some, List, [], ◌∷◌, arith, length, Bool-cases, ltb, ltb→lt, ltb-false, if◌then◌else◌,
}
use whais.Prelude.Arrays.{Rearranged, Rearranged-refl, Rearranged-trans, Rearranged-widen}
use whais.Utils.Sort.{
  Less, Parts, already_sorted, parts, partition, partition_reverse, push_parts, sort_parts,
  quick_sort,
}
use whais.Utils.Sort.Ranges.{SortedOn, SortedOn-parts, Partitioned, IsPartition}
use whais.Utils.Sort.Partition.{partition_lem}
use whais.Utils.Sort.Reverse.{partition_reverse_lem}

abbrev Stack : Type 0
Stack = List (ℕ × ℕ)

partition_of :
    {A : Type 0} (o : Less A) (d : A) (reverse : Bool) (from to : ℕ) (c : List A)
    → from < to
    → to < length c
    → IsPartition o d reverse from to c
        (if reverse then partition_reverse o d from to c else partition o d from to c)
partition_of o d true from to c h fits = partition_reverse_lem o d c from to fits h
partition_of o d false from to c h fits = partition_lem o d c from to fits h

module _ {A : Type 0} (o : Less A) (d : A) (reverse : Bool) where
  -- The range is sorted, and nothing else is changed.
  pub record Sorted (from to : ℕ) (c c' : List A) : Type 0 where
    pub sorted : SortedOn o d reverse from to c'
    pub rearranged : Rearranged d from to c c'

  -- With the range on the stack, `n` rounds lead to `c'` and the rest of the stack.
  module _ (from to : ℕ) (c : List A) (start : Stack → Stack) where
    record Runs (n : ℕ) (c' : List A) : Type 0 where
      few : n ≤ to - from
      result : Sorted from to c c'
      runs :
          (fuel : ℕ) (stack : Stack)
          → sort_parts o d (n + fuel) reverse (start stack) c ≡ sort_parts o d fuel reverse stack c'

    abbrev Sorts : Type 0
    Sorts = (n : ℕ) × (c' : List A) × Runs n c'

  -- One value needs no round.
  sort_pushed :
      (from to : ℕ) (c : List A)
      → from ≤ to
      → (from < to → Sorts from to c (λ stack. (from, to) ∷ stack))
      → Sorts from to c (λ stack. if ltb from to then (from, to) ∷ stack else stack)
  sort_pushed from to c h ih = elim (Bool-cases (ltb from to)) [
    | inl more ↦ rw more (ih (ltb→lt from to more))
    | inr done ↦ (
      0,
      c,
      record {
        few = omega arith;
        result = record {
          sorted = λ i j hi hj ht. absurd (omega (arith, ltb-false from to done));
          rearranged = Rearranged-refl d from to c;
        };
        runs = λ fuel stack. let e : 0 + fuel ≡ fuel = omega arith in rw (done, e) refl;
      },
    )
  ]

  -- The two parts one after the other.
  sort_both :
      (from to pivot : ℕ) (c c' : List A)
      → Partitioned o d reverse from to pivot c c'
      → ((c : List A)
          → length c ≡ length c'
          → from < pivot - 1
          → Sorts from (pivot - 1) c (λ s. (from, pivot - 1) ∷ s))
      → ((c : List A) → length c ≡ length c' → pivot < to → Sorts pivot to c (λ s. (pivot, to) ∷ s))
      → (n : ℕ) × (c₂ : List A) × (n + 1 ≤ to - from)
        × Sorted from to c c₂
        × ((fuel : ℕ) (stack : Stack)
            → sort_parts o d (n + fuel) reverse (push_parts from to pivot stack) c'
              ≡ sort_parts o d fuel reverse stack c₂)
  unfolding push_parts
  sort_both from to pivot c c' p low high =
      let (n₁, c₁, r₁) = sort_pushed from (pivot - 1) c' (omega (arith, p.above)) (low c' refl) in
      let (n₂, c₂, r₂) = sort_pushed pivot to c₁ p.within (high c₁ r₁.result.rearranged.size) in
      (
        n₁ + n₂,
        c₂,
        omega (arith, r₁.few, r₂.few, p.above, p.within),
        record {
          sorted =
              SortedOn-parts o d p r₁.result.rearranged r₁.result.sorted r₂.result.rearranged
                r₂.result.sorted;
          rearranged = Rearranged-trans d p.rearranged (
              Rearranged-trans d
                (Rearranged-widen d (omega arith) (omega (arith, p.within)) r₁.result.rearranged)
                (Rearranged-widen d (omega (arith, p.above)) (omega arith) r₂.result.rearranged));
        },
        λ fuel stack.
            let e : n₁ + n₂ + fuel ≡ n₁ + (n₂ + fuel) = omega arith in
            rw e (r₁.runs (n₂ + fuel) _ ∙ r₂.runs fuel stack),
      )

  module _ (from to : ℕ) (c : List A) (h : from < to) where
    abbrev outcome : Option (Parts A)
    outcome = if reverse then partition_reverse o d from to c else partition o d from to c

    -- One round, and the rounds of the parts.
    sort_outcome :
        (r : Option (Parts A))
        → outcome ≡ r
        → IsPartition o d reverse from to c r
        → ((from' to' : ℕ) (c' : List A)
            → length c' ≡ length c
            → to' - from' < to - from
            → from' < to'
            → to' ≤ to
            → Sorts from' to' c' (λ stack. (from', to') ∷ stack))
        → Sorts from to c (λ stack. (from, to) ∷ stack)
    unfolding sort_parts
    sort_outcome none e p ih = absurd p
    sort_outcome (some already_sorted) e p ih = (
      1,
      c,
      record {
        few = omega arith;
        result = record { sorted = p; rearranged = Rearranged-refl d from to c };
        runs = λ fuel stack.
            let one : 1 + fuel ≡ suc fuel = omega arith in rw one (rw (e, sort_parts) refl);
      },
    )
    sort_outcome (some (parts pivot c')) e p ih =
        let (n, c₂, few, result, runs) =
          sort_both from to pivot c c' p
            (λ x size small.
              ih from (pivot - 1) x (size ∙ p.rearranged.size) (omega (arith, p.above, p.within))
                small (omega (arith, p.within)))
            (λ x size small.
              ih pivot to x (size ∙ p.rearranged.size) (omega (arith, p.above)) small
                (omega arith)) in
        (
          suc n,
          c₂,
          record {
            few = omega (arith, few);
            result = result;
            runs = λ fuel stack.
                let one : suc n + fuel ≡ suc (n + fuel) = omega arith in
                rw one (rw (e, sort_parts) (runs fuel stack));
          },
        )

  -- A range on top of the stack is sorted in fewer rounds than it has values.
  sort_parts_lem :
      (size from to : ℕ) (c : List A)
      → to - from < size
      → from < to
      → to < length c
      → Sorts from to c (λ stack. (from, to) ∷ stack)
  sort_parts_lem zero from to c small h fits = absurd (omega arith)
  sort_parts_lem (suc size) from to c small h fits =
      sort_outcome from to c h (outcome from to c h) refl
        (partition_of o d reverse from to c h fits)
        (λ from' to' c' e less h' within.
          sort_parts_lem size from' to' c' (omega arith) h' (omega (arith, e)))

  -- From `from` to `to`, a range of the container, `quick_sort` ends with the range sorted: ascending,
  -- or descending where `reverse` is set. The values of the range are those it had, in another order,
  -- and no other place has changed.
  pub quick_sort_lem :
      (from to : ℕ) (c : List A)
      → from ≤ to
      → to < length c
      → (c' : List A) × (quick_sort o d from to reverse c ≡ some c')
        × SortedOn o d reverse from to c'
        × Rearranged d from to c c'
  unfolding quick_sort sort_parts
  quick_sort_lem from to c h fits = elim (Bool-cases (ltb from to)) [
    | inr done ↦ (
      c,
      rw done refl,
      λ i j hi hj ht. absurd (omega (arith, ltb-false from to done)),
      Rearranged-refl d from to c,
    )
    | inl more ↦
        let (n, c', r) =
          sort_parts_lem (suc (to - from)) from to c (omega arith) (ltb→lt from to more) fits in
        let enough : to - from ≡ n + (to - from - n) = omega (arith, r.few) in
        (
          c',
          rw more (
              ap (λ f. sort_parts o d f reverse ((from, to) ∷ []) c) enough
              ∙ r.runs (to - from - n) []),
          r.result.sorted,
          r.result.rearranged,
        )
  ]
