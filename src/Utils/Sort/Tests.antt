-- ===== src/Utils/Sort/Tests.antt =====
-- A list of numbers, sorted both ways and in part.
use whais.Prelude.{ℕ, ◌≡◌, refl, true, false, some, List, [], ◌∷◌, arith}
use whais.Prelude.Arrays.{Rearranged, exchange}
use whais.Utils.Sort.{quick_sort, partition, partition_reverse}
use whais.Utils.Sort.Ranges.{SortedOn, IsPartition}
use whais.Utils.Sort.Partition.{partition_lem}
use whais.Utils.Sort.Reverse.{partition_reverse_lem}
use whais.Utils.Sort.QuickSort.{quick_sort_lem}
use whais.Utils.Sort.Numbers.{numbers}

abbrev scores : List ℕ
scores = 5 ∷ 3 ∷ 9 ∷ 3 ∷ 7 ∷ 1 ∷ []

sorted : quick_sort numbers 0 0 5 false scores ≡ some (1 ∷ 3 ∷ 3 ∷ 5 ∷ 7 ∷ 9 ∷ [])
unfolding quick_sort exchange
sorted = refl

sorted_middle : quick_sort numbers 0 1 4 true scores ≡ some (5 ∷ 9 ∷ 7 ∷ 3 ∷ 3 ∷ 1 ∷ [])
unfolding quick_sort exchange
sorted_middle = refl

quick_sort_lem_example :
    (c' : List ℕ) × (quick_sort numbers 0 1 4 true scores ≡ some c')
    × SortedOn numbers 0 true 1 4 c'
    × Rearranged 0 1 4 scores c'
quick_sort_lem_example = quick_sort_lem numbers 0 true 1 4 scores (omega arith) (omega arith)

partition_lem_example : IsPartition numbers 0 false 0 5 scores (partition numbers 0 0 5 scores)
partition_lem_example = partition_lem numbers 0 scores 0 5 (omega arith) (omega arith)

partition_reverse_lem_example :
    IsPartition numbers 0 true 0 5 scores (partition_reverse numbers 0 0 5 scores)
partition_reverse_lem_example =
    partition_reverse_lem numbers 0 scores 0 5 (omega arith) (omega arith)
