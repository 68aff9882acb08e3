-- ===== src/Pastra/TableSort/Rows.antt =====
-- `Sort`: the rows of the range come out in the order of the field, each row whole.
use native.Mathlib.Decide.{ℕ_discrete}
use whais.Prelude.{
  ℕ, ◌+◌, ◌-◌, ◌*◌, ◌%◌, ◌^◌, ◌≤◌, ◌<◌, ◌≡◌, refl, sym, ap, ◌∙◌, min, max, Bool, true, false, some,
  List, arith, get_or, ltb, ◌==◌, if◌then◌else◌,
}
use whais.Prelude.Arrays.{Rearranged, Rearranged-refl}
use whais.Utils.Sort.{Less, quick_sort}
use whais.Utils.Sort.Ranges.{SortedOn, misplaced}
use whais.Utils.Sort.QuickSort.{quick_sort_lem}
use whais.Pastra.TableSort.{TableStore, Laws, in_place, by_value, commit, sort_rows, sort}
use whais.Pastra.TableSort.Exchange.{Reordered}
use whais.Pastra.TableSort.Permutation.{
  IsPermutation, Rearranged-IsPermutation, length-in_place, get_or-in_place, unsettled-le,
}
use whais.Pastra.TableSort.Cycles.{Closed, commit_lem}

misplaced-by_value :
    {V : Type 0} (o : Less V) (value : ℕ → V) (reverse : Bool) (i j : ℕ)
    → misplaced (by_value o value) reverse i j ≡ false
    → misplaced o reverse (value i) (value j) ≡ false
unfolding by_value
misplaced-by_value o value true i j e = e
misplaced-by_value o value false i j e = e

module _ {T V : Type 0} (s : TableStore T V) (w : Laws s) (o : Less V) where
  open s use {allocated_rows, fields_count, is_array, get_value}

  -- The table after a sort: its rows are those of `t`, each once, the rows of the range among
  -- themselves and in order, the others where they were.
  pub record SortedTable (field from to : ℕ) (reverse : Bool) (t t' : T) (rows : List ℕ)
      : Type 0 where
    pub permutation : IsPermutation (allocated_rows t) rows
    pub reordered : Reordered s w (λ i. get_or rows i 0) t t'
    pub before : (i : ℕ) → i < from → get_or rows i 0 ≡ i
    pub after : (i : ℕ) → to < i → i < allocated_rows t → get_or rows i 0 ≡ i
    pub sorted :
        (i j : ℕ)
        → from ≤ i
        → i < j
        → j ≤ to
        → misplaced o reverse (get_value t' i field) (get_value t' j field) ≡ false

  module _ (field from to : ℕ) (reverse : Bool) (t : T) where
    sort_rows-eq :
        (rows : List ℕ) (t' : T)
        → quick_sort
            (by_value o (λ row. get_value t row field))
            0
            from
            to
            reverse
            (in_place 0 (allocated_rows t))
          ≡ some rows
        → commit s (2 * allocated_rows t + 1) 0 t rows ≡ some t'
        → sort_rows s o field from to reverse t ≡ some t'
    unfolding sort_rows
    sort_rows-eq rows t' e e' = rw (e, sort_rows) e'

    SortedTable-commit :
        (rows : List ℕ) (t' : T)
        → from ≤ to
        → to < allocated_rows t
        → field < fields_count t
        → SortedOn (by_value o (λ row. get_value t row field)) 0 reverse from to rows
        → Rearranged 0 from to (in_place 0 (allocated_rows t)) rows
        → Reordered s w (λ i. get_or rows i 0) t t'
        → SortedTable field from to reverse t t' rows
    SortedTable-commit rows t' h fits hf sorted r re = record {
      permutation = Rearranged-IsPermutation (allocated_rows t) from to rows fits r;
      reordered = re;
      before = λ i hi.
          omega (arith, r.before i hi, get_or-in_place 0 (allocated_rows t) i 0 (omega arith));
      after = λ i hi hn. omega (arith, r.after i hi, get_or-in_place 0 (allocated_rows t) i 0 hn);
      sorted = λ i j hi hj ht.
          rw (re.values i field (omega arith) hf, re.values j field (omega arith) hf)
            (misplaced-by_value o (λ row. get_value t row field) reverse (get_or rows i 0)
              (get_or rows j 0) (sorted i j hi hj ht));
    }

    sort_rows_lem :
        from ≤ to
        → to < allocated_rows t
        → field < fields_count t
        → (t' : T) × (rows : List ℕ) × (sort_rows s o field from to reverse t ≡ some t')
          × SortedTable field from to reverse t t' rows
    sort_rows_lem h fits hf =
        let n : ℕ = allocated_rows t in
        let (rows, e, sorted, r) =
          quick_sort_lem (by_value o (λ row. get_value t row field)) 0 reverse from to
            (in_place 0 n) h (omega (arith, length-in_place 0 n)) in
        let p = Rearranged-IsPermutation n from to rows fits r in
        let start : Closed s w t (λ i. get_or rows i 0) t rows = record {
          permutation = p;
          same_rows = refl;
          same_fields = refl;
          values = λ i f hi hg. refl;
        } in
        let (t', e', re) =
          commit_lem s w t (λ i. get_or rows i 0) (2 * n + 1) 0 t rows
            (omega (arith, unsettled-le 0 rows, p.size)) start (λ i hi. absurd (omega arith)) in
        (t', rows, sort_rows-eq rows t' e e', SortedTable-commit rows t' h fits hf sorted r re)

  -- A range of one row.
  SortedTable-single :
      (field from : ℕ) (reverse : Bool) (t : T)
      → from < allocated_rows t
      → SortedTable field from from reverse t t (in_place 0 (allocated_rows t))
  SortedTable-single field from reverse t h = record {
    permutation =
        Rearranged-IsPermutation (allocated_rows t) from from (in_place 0 (allocated_rows t)) h
          (Rearranged-refl 0 from from (in_place 0 (allocated_rows t)));
    reordered = record {
      rows = refl;
      fields = refl;
      values = λ i f hi hf. ap (λ x. get_value t x f) (sym (here i hi));
    };
    before = λ i hi. here i (omega arith);
    after = λ i hi hn. here i hn;
    sorted = λ i j hi hj ht. absurd (omega arith);
  }
    where
      here : (i : ℕ) → i < allocated_rows t → get_or (in_place 0 (allocated_rows t)) i 0 ≡ i
      here i hi = omega (arith, get_or-in_place 0 (allocated_rows t) i 0 hi)

  sort-eq :
      (field from_row to_row from to : ℕ) (reverse : Bool) (t : T)
      → is_array t field ≡ false
      → min from_row to_row ≡ from
      → min (max from_row to_row) ((allocated_rows t + (2 ^ 32 - 1)) % 2 ^ 32) ≡ to
      → ltb to from ≡ false
      → sort s o field from_row to_row reverse t
        ≡ (if from == to then some t else sort_rows s o field from to reverse t)
  unfolding sort
  sort-eq field from_row to_row from to reverse t plain e e' ordered =
      rw (plain, e, e', ordered) refl

  -- Between two bounds in order, the upper one a row of the table.
  sort_between :
      (field from_row to_row from to : ℕ) (reverse : Bool) (t : T)
      → is_array t field ≡ false
      → field < fields_count t
      → min from_row to_row ≡ from
      → min (max from_row to_row) ((allocated_rows t + (2 ^ 32 - 1)) % 2 ^ 32) ≡ to
      → from ≤ to
      → to < allocated_rows t
      → (t' : T) × (rows : List ℕ) × (sort s o field from_row to_row reverse t ≡ some t')
        × SortedTable field from to reverse t t' rows
  sort_between field from_row to_row from to reverse t plain hf e e' h fits =
      let start = sort-eq field from_row to_row from to reverse t plain e e' (ground arith) in
      elim (ℕ_discrete from to) [
        | yes one ↦
            let single : (from == to) ≡ true = ground arith in
            (
              t,
              in_place 0 (allocated_rows t),
              start ∙ rw single refl,
              rw (sym one) (SortedTable-single field from reverse t (omega arith)),
            )
        | no n ↦
            let distinct : (from == to) ≡ false = ground arith in
            let (t', rows, e₂, r) = sort_rows_lem field from to reverse t h fits hf in
            (t', rows, start ∙ rw distinct e₂, r)
      ]

  -- `Sort` on a field that is no array, the lower of the two bounds a row of a table with fewer than
  -- 2 ^ 32 rows: it returns, and the rows between the lower bound and the upper one, or the last row
  -- if that is less, stand in the order of the field, descending where `reverse` is set. They are
  -- the rows that stood there, each once and whole, and every other row is where it was.
  pub sort_lem :
      (field from_row to_row : ℕ) (reverse : Bool) (t : T)
      → is_array t field ≡ false
      → field < fields_count t
      → min from_row to_row < allocated_rows t
      → allocated_rows t < 2 ^ 32
      → (t' : T) × (rows : List ℕ) × (sort s o field from_row to_row reverse t ≡ some t')
        × SortedTable field
            (min from_row to_row)
            (min (max from_row to_row) (allocated_rows t - 1))
            reverse
            t
            t'
            rows
  sort_lem field from_row to_row reverse t plain hf hr small =
      sort_between field from_row to_row (min from_row to_row)
        (min (max from_row to_row) (allocated_rows t - 1)) reverse t plain hf refl
        (ap (min (max from_row to_row)) (omega arith)) (omega arith) (omega arith)
