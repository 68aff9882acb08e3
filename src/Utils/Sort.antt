-- ===== src/Utils/Sort.antt =====
-- The sort of utils/include/wsort.h. The container is a list; `d` is what a read outside it gives, and
-- the sort never makes one. The element type and its `<` are the template's parameter.
pub mod Ranges
pub mod Split
pub mod Partition
pub mod Reverse
pub mod QuickSort
pub mod Numbers
mod Tests
use whais.Prelude.{
  ℕ, zero, suc, ◌+◌, ◌-◌, ◌*◌, ◌≡◌, Bool, true, false, not, Option, none, some, List, [], ◌∷◌, ltb,
  if◌then◌else◌, get_or,
}
use whais.Prelude.Arrays.{exchange}

-- The `<` of an element type: a strict order in which being unordered is transitive.
pub record Less (A : Type 0) : Type 0 where
  pub less : A → A → Bool
  pub asymm : (a b : A) → less a b ≡ true → less b a ≡ false
  pub not_less_trans : (a b c : A) → less a b ≡ false → less b c ≡ false → less a c ≡ false

-- What the first loop of a partition finds: the whole range in order, or the place of its pivot.
pub data Scan : Type 0 where
  in_order : Scan
  pivot_at : ℕ → Scan

-- The outcome of a partition. The index that comes with the flag for a range already in order is
-- never read.
pub data Parts (A : Type 0) : Type 0 where
  already_sorted : Parts A
  parts : ℕ → List A → Parts A

-- The ranges that a partition leaves to sort go on the stack, the upper one first.
unfoldable pub push_parts : ℕ → ℕ → ℕ → List (ℕ × ℕ) → List (ℕ × ℕ)
push_parts from to pivot stack =
    let upper = (if ltb pivot to then (pivot, to) ∷ stack else stack) in
    if ltb from (pivot - 1) then (from, pivot - 1) ∷ upper else upper

module _ {A : Type 0} (o : Less A) (d : A) where
  open o use {less}

  -- The first loop of `partition`, with `to - from + 1` rounds to go.
  unfoldable pub scan : List A → ℕ → ℕ → ℕ → Scan
  scan c zero from pivot_index = in_order
  scan c (suc left) from pivot_index =
      let raised = scan c left (from + 1) from in
      let kept = scan c left (from + 1) pivot_index in
      if less (get_or c pivot_index d) (get_or c from d)
      then raised
      else if less (get_or c from d) (get_or c (from - 1) d)
      then pivot_at pivot_index
      else kept

  -- One round of its second loop.
  unfoldable pub split_round : A → ℕ → ℕ → List A → ℕ × ℕ × List A
  split_round pivot from to c =
      if less (get_or c from d) pivot
      then (from + 1, to, c)
      else if not (less (get_or c to d) pivot)
      then (from, to - 1, c)
      else (from, to, exchange d c from to)

  -- The second loop, on fuel: the place where the two ends met, and the container.
  unfoldable pub split : ℕ → A → ℕ → ℕ → List A → Option (ℕ × List A)
  unfolding split_round
  split zero pivot from to c = none
  split (suc fuel) pivot from to c =
      let (from', to', c') = split_round pivot from to c in
      let rest = split fuel pivot from' to' c' in if ltb from' to' then rest else some (from', c')

  unfoldable pub first_high : A → ℕ × List A → Parts A
  first_high pivot (from, c) = parts (if less (get_or c from d) pivot then from + 1 else from) c

  unfoldable pub partition_from : List A → ℕ → Scan → Option (Parts A)
  unfolding split first_high
  partition_from c to in_order = some already_sorted
  partition_from c to (pivot_at pivot_index) =
      let pivot = get_or c pivot_index d in
      elim (split (2 * (to - pivot_index) + 2) pivot pivot_index to c) [
        | none ↦ none
        | some r ↦ some (first_high pivot r)
      ]

  unfoldable pub partition : ℕ → ℕ → List A → Option (Parts A)
  unfolding scan partition_from
  partition from to c = partition_from c to (scan c (to - from) (from + 1) from)

  -- The first loop of `partition_reverse`: with `left` rounds to go, `to` is `from + left - 1`.
  unfoldable pub scan_reverse : List A → ℕ → ℕ → ℕ → Scan
  scan_reverse c from zero pivot_index = in_order
  scan_reverse c from (suc left) pivot_index =
      let to = from + left in
      let raised = scan_reverse c from left to in
      let kept = scan_reverse c from left pivot_index in
      if less (get_or c pivot_index d) (get_or c to d)
      then raised
      else if less (get_or c to d) (get_or c (to + 1) d)
      then pivot_at pivot_index
      else kept

  unfoldable pub split_round_reverse : A → ℕ → ℕ → List A → ℕ × ℕ × List A
  split_round_reverse pivot from to c =
      if less (get_or c to d) pivot
      then (from, to - 1, c)
      else if not (less (get_or c from d) pivot)
      then (from + 1, to, c)
      else (from, to, exchange d c from to)

  unfoldable pub split_reverse : ℕ → A → ℕ → ℕ → List A → Option (ℕ × List A)
  unfolding split_round_reverse
  split_reverse zero pivot from to c = none
  split_reverse (suc fuel) pivot from to c =
      let (from', to', c') = split_round_reverse pivot from to c in
      let rest = split_reverse fuel pivot from' to' c' in
      if ltb from' to' then rest else some (to', c')

  unfoldable pub first_low : A → ℕ × List A → Parts A
  first_low pivot (to, c) = parts (if not (less (get_or c to d) pivot) then to + 1 else to) c

  unfoldable pub partition_reverse_from : List A → ℕ → Scan → Option (Parts A)
  unfolding split_reverse first_low
  partition_reverse_from c from in_order = some already_sorted
  partition_reverse_from c from (pivot_at pivot_index) =
      let pivot = get_or c pivot_index d in
      elim (split_reverse (2 * (pivot_index - from) + 2) pivot from pivot_index c) [
        | none ↦ none
        | some r ↦ some (first_low pivot r)
      ]

  unfoldable pub partition_reverse : ℕ → ℕ → List A → Option (Parts A)
  unfolding scan_reverse partition_reverse_from
  partition_reverse from to c = partition_reverse_from c from (scan_reverse c from (to - from) to)

  -- The loop of `quick_sort`, on fuel: each round takes the last range of the stack.
  unfoldable pub sort_parts : ℕ → Bool → List (ℕ × ℕ) → List A → Option (List A)
  unfolding partition partition_reverse push_parts
  sort_parts fuel reverse [] c = some c
  sort_parts zero reverse (range ∷ stack) c = none
  sort_parts (suc fuel) reverse ((from, to) ∷ stack) c =
      elim (if reverse then partition_reverse from to c else partition from to c) [
        | none ↦ none
        | some already_sorted ↦ sort_parts fuel reverse stack c
        | some (parts pivot c') ↦ sort_parts fuel reverse (push_parts from to pivot stack) c'
      ]

  unfoldable pub quick_sort : ℕ → ℕ → Bool → List A → Option (List A)
  unfolding sort_parts
  quick_sort from to reverse c =
      if ltb from to then sort_parts (to - from) reverse ((from, to) ∷ []) c else some c
