-- ===== src/Pastra/TableSort.antt =====
-- Sorting the rows of a table: `ExchangeRows`, `SortTableContainer` and `PrototypeTable::Sort` of
-- dbs/pastra/ps_templatetable.cpp, over the table's own `Get` and `Set`. A thrown exception is `none`.
pub mod Exchange
pub mod Permutation
pub mod Cycles
pub mod Rows
mod Tests
use whais.Prelude.{
  ℕ, zero, suc, ◌+◌, ◌-◌, ◌*◌, ◌%◌, ◌^◌, ◌≤◌, ◌<◌, ◌≡◌, min, max, Bool, true, false, ◌&&◌, ◌||◌,
  Option, none, some, List, [], ◌∷◌, ltb, leb, ◌==◌, if◌then◌else◌, length, get_or, set,
}
use whais.Utils.Sort.{Less, quick_sort}

-- What the sort uses of a table.
pub record TableStore (T V : Type 0) : Type 0 where
  pub allocated_rows : T → ℕ
  pub fields_count : T → ℕ
  pub is_array : T → ℕ → Bool
  pub get_value : T → ℕ → ℕ → V
  pub set_value : T → ℕ → ℕ → V → T

-- A value that is set is got back, and nothing else of the table changes.
pub record Laws {T V : Type 0} (s : TableStore T V) : Type 0 where
  pub rows_kept :
      (t : T) (row field : ℕ) (v : V)
      → s.allocated_rows (s.set_value t row field v) ≡ s.allocated_rows t
  pub fields_kept :
      (t : T) (row field : ℕ) (v : V)
      → s.fields_count (s.set_value t row field v) ≡ s.fields_count t
  pub get_set :
      (t : T) (row field : ℕ) (v : V) (row' field' : ℕ)
      → row < s.allocated_rows t
      → field < s.fields_count t
      → s.get_value (s.set_value t row field v) row' field'
        ≡ (if (row' == row) && (field' == field) then v else s.get_value t row' field')

-- The rows of a new container, each in its place.
unfoldable pub in_place : ℕ → ℕ → List ℕ
in_place row zero = []
in_place row (suc left) = row ∷ in_place (row + 1) left

-- `container[i] < container[j]` compares the values of the two rows in the field.
unfoldable pub by_value : {V : Type 0} → Less V → (ℕ → V) → Less ℕ
by_value o value = record {
  less = λ i j. o.less (value i) (value j);
  asymm = λ i j. o.asymm (value i) (value j);
  not_less_trans = λ i j k. o.not_less_trans (value i) (value j) (value k);
}

module _ {T V : Type 0} (s : TableStore T V) where
  open s use {allocated_rows, fields_count, is_array, get_value, set_value}

  unfoldable pub table_exchange_rows : ℕ → ℕ → ℕ → T → T
  table_exchange_rows field row₁ row₂ t =
      let v₁ = get_value t row₁ field in
      let v₂ = get_value t row₂ field in set_value (set_value t row₁ field v₂) row₂ field v₁

  -- The loop of `ExchangeRows` over the fields, with `left` of them to go.
  unfoldable pub exchange_fields : ℕ → ℕ → ℕ → ℕ → T → T
  unfolding table_exchange_rows
  exchange_fields zero field row₁ row₂ t = t
  exchange_fields (suc left) field row₁ row₂ t =
      exchange_fields left (field + 1) row₁ row₂ (table_exchange_rows field row₁ row₂ t)

  unfoldable pub exchange_rows : ℕ → ℕ → T → Option T
  unfolding exchange_fields
  exchange_rows row₁ row₂ t =
      if leb (allocated_rows t) row₁ || leb (allocated_rows t) row₂
      then none
      else if row₁ == row₂
      then some t
      else some (exchange_fields (fields_count t) 0 row₁ row₂ t)

  -- The inner loop of the destructor, on fuel: it closes the cycle that starts at `row`.
  unfoldable pub close_cycle : ℕ → ℕ → ℕ → T → List ℕ → Option (T × List ℕ)
  close_cycle zero row current t rows = none
  close_cycle (suc fuel) row current t rows =
      let correct = get_or rows current 0 in
      let settled = set rows current current in
      let on : Option (T × List ℕ) = elim (exchange_rows current correct t) [
        | none ↦ none
        | some t' ↦ close_cycle fuel row correct t' settled
      ] in
      if correct == row then some (t, settled) else on

  -- The destructor of the container: it brings the rows of the table in the order of the container.
  unfoldable pub commit : ℕ → ℕ → T → List ℕ → Option T
  unfolding close_cycle
  commit zero row t rows = none
  commit (suc fuel) row t rows =
      let next = commit fuel (row + 1) t rows in
      let again : Option T = elim (close_cycle (length rows) row row t rows) [
        | none ↦ none
        | some (t', rows') ↦ commit fuel row t' rows'
      ] in
      if ltb row (length rows) then (if get_or rows row 0 == row then next else again) else some t

  unfoldable pub sort_rows : Less V → ℕ → ℕ → ℕ → Bool → T → Option T
  unfolding commit
  sort_rows o field from to reverse t =
      let n = allocated_rows t in
      elim (quick_sort (by_value o (λ row. get_value t row field)) 0 from to reverse
        (in_place 0 n)) [ none ↦ none | some rows ↦ commit (2 * n + 1) 0 t rows ]

  -- `Sort`. Rows are 32-bit words: with no rows `AllocatedRows() - 1` wraps.
  unfoldable pub sort : Less V → ℕ → ℕ → ℕ → Bool → T → Option T
  unfolding sort_rows
  sort o field from_row to_row reverse t =
      let from = min from_row to_row in
      let to = min (max from_row to_row) ((allocated_rows t + (2 ^ 32 - 1)) % 2 ^ 32) in
      if is_array t field
      then none
      else if ltb to from
      then none
      else if from == to
      then some t
      else sort_rows o field from to reverse t
