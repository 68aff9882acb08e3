-- ===== src/Pastra/TableSort/Tests.antt =====
-- A table in memory, its rows sorted on a field.
use whais.Prelude.{
  ℕ, zero, suc, ◌<◌, ◌≡◌, refl, ap, min, max, ◌-◌, true, false, ◌&&◌, Option, some, none, List, [],
  ◌∷◌, arith, get_or, ◌==◌, if◌then◌else◌,
}
use whais.Utils.Sort.{quick_sort}
use whais.Utils.Sort.Numbers.{numbers}
use whais.Prelude.Arrays.{exchange}
use whais.Pastra.TableSort.{TableStore, Laws, in_place, by_value, exchange_rows, commit, sort}
use whais.Pastra.TableSort.Exchange.{Reordered, other_row, exchange_rows_lem}
use whais.Pastra.TableSort.Permutation.{unsettled-le}
use whais.Pastra.TableSort.Cycles.{Closed, commit_lem}
use whais.Pastra.TableSort.Rows.{SortedTable, sort_lem}

record Table : Type 0 where
  rows : ℕ
  fields : ℕ
  cell : ℕ → ℕ → ℕ

abbrev in_memory : TableStore Table ℕ
in_memory = record {
  allocated_rows = λ t. t.rows;
  fields_count = λ t. t.fields;
  is_array = λ t field. false;
  get_value = λ t row field. t.cell row field;
  set_value = λ t row field v. record t {
    cell = λ row' field'. if (row' == row) && (field' == field) then v else t.cell row' field';
  };
}

abbrev in_memory-Laws : Laws in_memory
in_memory-Laws = record {
  rows_kept = λ t row field v. refl;
  fields_kept = λ t row field v. refl;
  get_set = λ t row field v row' field' hr hf. refl;
}

-- Four rows of two fields: 30 0, 10 1, 20 2, 10 3.
abbrev people : Table
people = record {
  rows = 4;
  fields = 2;
  cell = λ row field. if field == 1 then row else get_or (30 ∷ 10 ∷ 20 ∷ 10 ∷ []) row 0;
}

abbrev column : ℕ → Option Table → List ℕ
column field none = []
column field (some t) = t.cell 0 field ∷ t.cell 1 field ∷ t.cell 2 field ∷ t.cell 3 field ∷ []

sorted_ages : column 0 (sort in_memory numbers 0 0 3 false people) ≡ 10 ∷ 10 ∷ 20 ∷ 30 ∷ []
unfolding sort quick_sort in_place by_value exchange exchange_rows
sorted_ages = refl

sorted_backwards : column 0 (sort in_memory numbers 0 3 0 true people) ≡ 30 ∷ 20 ∷ 10 ∷ 10 ∷ []
unfolding sort quick_sort in_place by_value exchange exchange_rows
sorted_backwards = refl

sort_lem_example :
    (t' : Table) × (rows : List ℕ) × (sort in_memory numbers 0 0 3 false people ≡ some t')
    × SortedTable in_memory in_memory-Laws numbers 0
        (min 0 3)
        (min (max 0 3) (4 - 1))
        false
        people
        t'
        rows
sort_lem_example =
    sort_lem in_memory in_memory-Laws numbers 0 0 3 false people refl (omega arith) (omega arith)
      (omega arith)

exchange_rows_lem_example :
    (t' : Table) × (exchange_rows in_memory 0 2 people ≡ some t')
    × Reordered in_memory in_memory-Laws (other_row 0 2) people t'
exchange_rows_lem_example =
    exchange_rows_lem in_memory in_memory-Laws 0 2 people (omega arith) (omega arith)

-- A cycle of three rows, the fourth in its place.
abbrev wanted : List ℕ
wanted = 1 ∷ 2 ∷ 0 ∷ 3 ∷ []

wanted_bounded : (i : ℕ) → i < 4 → get_or wanted i 0 < 4
wanted_bounded zero h = omega arith
wanted_bounded (suc zero) h = omega arith
wanted_bounded (suc (suc zero)) h = omega arith
wanted_bounded (suc (suc (suc zero))) h = omega arith
wanted_bounded (suc (suc (suc (suc i)))) h = absurd (omega arith)

back : ℕ → ℕ
back n = if n == 3 then 3 else if n == 0 then 2 else n - 1

back-wanted : (i : ℕ) → i < 4 → back (get_or wanted i 0) ≡ i
unfolding back
back-wanted zero h = refl
back-wanted (suc zero) h = refl
back-wanted (suc (suc zero)) h = refl
back-wanted (suc (suc (suc zero))) h = refl
back-wanted (suc (suc (suc (suc i)))) h = absurd (omega arith)

abbrev open_cycle : Closed in_memory in_memory-Laws people (λ i. get_or wanted i 0) people wanted
open_cycle = record {
  permutation = record {
    size = refl;
    bounded = wanted_bounded;
    injective = λ i j hi hj e. omega (arith, back-wanted i hi, back-wanted j hj, ap back e);
  };
  same_rows = refl;
  same_fields = refl;
  values = λ i f hi hf. refl;
}

commit_lem_example :
    (t' : Table) × (commit in_memory 9 0 people wanted ≡ some t')
    × Reordered in_memory in_memory-Laws (λ i. get_or wanted i 0) people t'
commit_lem_example =
    commit_lem in_memory in_memory-Laws people (λ i. get_or wanted i 0) 9 0 people wanted
      (omega (arith, unsettled-le 0 wanted)) open_cycle (λ i h. absurd (omega arith))
