-- ===== src/Pastra/BTree/Tests.antt =====
-- Nodes of a field of numbers, 0 being the null value, and a tree of two leaves.
mod Halves
use whais.Prelude.{
  ℕ, zero, suc, ◌+◌, ◌≤◌, ◌<◌, ◌≡◌, refl, sym, ◌⊎◌, Bool, true, false, not, ◌&&◌, none, some, List,
  [], ◌∷◌, arith, ltb, ◌==◌, if◌then◌else◌, get_or,
}
use whais.Utils.Sort.Numbers.{numbers}
use whais.Pastra.BTree.{
  Values, Key, BTreeNode, level, get_key, compare_with, find_in_node, insert_key, remove_key,
  node_id_of_key, find_key, descend, past_sentinel,
}
use whais.Pastra.BTree.Keys.{key_less}
use whais.Pastra.BTree.Search.{IsDescending, IsLookup, find_in_node_lem}
use whais.Pastra.BTree.Written.{IsNode}
use whais.Pastra.BTree.Insert.{Inserted, insert_key_lem}
use whais.Pastra.BTree.Front.{insert_key-front}
use whais.Pastra.BTree.Remove.{Removed, remove_key_lem}
use whais.Pastra.BTree.Descent.{IsAnswer, InTree, IsInner, IsTree, IsSmallest, find_key_lem}

same : ℕ → ℕ → Bool
same a b = a == b

same_iff : (a b : ℕ) → (a == b) ≡ (not (ltb a b) && not (ltb b a))
same_iff a b = ground arith

zero_only : (a : ℕ) → (a == 0) ≡ true → a ≡ 0
zero_only a h = ground arith

zero_below : (a : ℕ) → (a == 0) ≡ false → ltb 0 a ≡ true
zero_below a h = ground arith

abbrev counts : Values ℕ
counts = record {
  order = numbers;
  equal = λ a b. a == b;
  equal_iff = same_iff;
  null = 0;
  is_null = λ a. a == 0;
  null_is_null = refl;
  is_null_only = zero_only;
  null_below = zero_below;
}

abbrev key : ℕ → ℕ → Key ℕ
key value row = record { value = value; row = row }

-- The keys 9 and 6, of the rows 7 and 3.
abbrev upper : BTreeNode ℕ
upper = record {
  leaf = true;
  keys_count = 2;
  null_keys_count = 0;
  rows = 7 ∷ 3 ∷ 0 ∷ 0 ∷ [];
  child_nodes = [];
  values = 9 ∷ 6 ∷ 0 ∷ 0 ∷ [];
}

-- The key 5 of row 1 and a null key of row 4.
abbrev lower : BTreeNode ℕ
lower = record {
  leaf = true;
  keys_count = 2;
  null_keys_count = 1;
  rows = 1 ∷ 4 ∷ 0 ∷ 0 ∷ [];
  child_nodes = [];
  values = 5 ∷ 0 ∷ 0 ∷ 0 ∷ [];
}

abbrev top : BTreeNode ℕ
top = record {
  leaf = false;
  keys_count = 2;
  null_keys_count = 0;
  rows = 7 ∷ 1 ∷ 0 ∷ [];
  child_nodes = 2 ∷ 3 ∷ 0 ∷ [];
  values = 9 ∷ 5 ∷ 0 ∷ [];
}

abbrev nodes : ℕ → BTreeNode ℕ
nodes id = if id == 1 then top else if id == 2 then upper else lower

found_six : find_key counts nodes 2 1 (key 9 7) (key 6 0) ≡ some (true, 2, 1)
unfolding find_key descend find_in_node past_sentinel node_id_of_key
found_six = refl

found_sentinel : find_key counts nodes 2 1 (key 9 7) (key 8 0) ≡ some (false, 2, 0)
unfolding find_key descend find_in_node past_sentinel node_id_of_key
found_sentinel = refl

upper-IsDescending : IsDescending counts upper
unfolding key_less get_key compare_with
upper-IsDescending zero zero h k = absurd (omega arith)
upper-IsDescending zero (suc zero) h k = refl
upper-IsDescending zero (suc (suc j)) h k = absurd (omega arith)
upper-IsDescending (suc i) j h k = absurd (omega arith)

lower-IsDescending : IsDescending counts lower
unfolding key_less get_key compare_with
lower-IsDescending zero zero h k = absurd (omega arith)
lower-IsDescending zero (suc zero) h k = refl
lower-IsDescending zero (suc (suc j)) h k = absurd (omega arith)
lower-IsDescending (suc i) j h k = absurd (omega arith)

top-IsDescending : IsDescending counts top
unfolding key_less get_key compare_with
top-IsDescending zero zero h k = absurd (omega arith)
top-IsDescending zero (suc zero) h k = refl
top-IsDescending zero (suc (suc j)) h k = absurd (omega arith)
top-IsDescending (suc i) j h k = absurd (omega arith)

two_stored :
    (a b : ℕ) (rest : List ℕ)
    → 0 < a
    → 0 < b
    → (i : ℕ) → i < 2
    → (get_or (a ∷ b ∷ rest) i 0 == 0) ≡ false
two_stored a b rest ha hb zero h = ground arith
two_stored a b rest ha hb (suc zero) h = ground arith
two_stored a b rest ha hb (suc (suc i)) h = absurd (omega arith)

one_stored : (i : ℕ) → i < 1 → (get_or lower.values i 0 == 0) ≡ false
one_stored zero h = refl
one_stored (suc i) h = absurd (omega arith)

upper-IsNode : IsNode counts upper
upper-IsNode = record {
  nulls = omega arith;
  stored = λ i h. two_stored 9 6 (0 ∷ 0 ∷ []) (omega arith) (omega arith) i h;
  descending = upper-IsDescending;
}

lower-IsNode : IsNode counts lower
lower-IsNode = record { nulls = omega arith; stored = one_stored; descending = lower-IsDescending }

top-IsNode : IsNode counts top
top-IsNode = record {
  nulls = omega arith;
  stored = λ i h. two_stored 9 5 (0 ∷ []) (omega arith) (omega arith) i h;
  descending = top-IsDescending;
}

find_in_node_lem_example : IsLookup counts lower (key 3 0) (find_in_node counts lower (key 3 0))
find_in_node_lem_example = find_in_node_lem counts lower (key 3 0) lower-IsDescending

lower_new :
    (i : ℕ)
    → i < 2
    → key_less counts (get_key counts lower i) (key 3 0) ≡ false
    → key_less counts (key 3 0) (get_key counts lower i) ≡ true
unfolding key_less get_key compare_with
lower_new zero h k = refl
lower_new (suc zero) h k = absurd (ground (arith, k))
lower_new (suc (suc i)) h k = absurd (omega arith)

first_above : key_less counts (get_key counts lower 0) (key 3 0) ≡ false
unfolding key_less get_key compare_with
first_above = refl

insert_key_lem_example :
    (n' : BTreeNode ℕ) × (p : ℕ) × (insert_key counts 2 lower (key 3 0) ≡ some (n', p))
    × Inserted counts lower (key 3 0) n' p
insert_key_lem_example =
    insert_key_lem counts 2 lower (key 3 0) lower-IsNode
      record {
        rows = omega arith;
        values = omega arith;
        child_nodes = λ h. absurd (ground (arith, h));
        few = omega arith;
      }
      (omega arith) (omega arith) first_above lower_new

remove_key_lem_example : Removed counts top 0 (remove_key counts top 0)
remove_key_lem_example =
    remove_key_lem counts top 0 top-IsNode
      record { rows = omega arith; values = omega arith; child_nodes = λ h. omega arith }
      (omega arith)

top_child : (i : ℕ) → i < 2 → IsTree counts nodes zero (node_id_of_key counts top i)
unfolding node_id_of_key
top_child zero h = (upper-IsNode, refl)
top_child (suc zero) h = (lower-IsNode, refl)
top_child (suc (suc i)) h = absurd (omega arith)

top_filled : (i : ℕ) → i < 2 → 0 < (nodes (node_id_of_key counts top i)).keys_count
unfolding node_id_of_key
top_filled zero h = omega arith
top_filled (suc zero) h = omega arith
top_filled (suc (suc i)) h = absurd (omega arith)

top_first :
    (i : ℕ) → i < 2 → get_key counts (nodes (node_id_of_key counts top i)) 0 ≡ get_key counts top i
unfolding node_id_of_key get_key
top_first zero h = refl
top_first (suc zero) h = refl
top_first (suc (suc i)) h = absurd (omega arith)

top_not_above :
    (i : ℕ) (k : Key ℕ)
    → i < 2
    → InTree counts nodes zero (node_id_of_key counts top i) k
    → key_less counts (get_key counts top i) k ≡ false
unfolding node_id_of_key get_key key_less compare_with
top_not_above zero k h (zero, m, e) = rw (sym e) refl
top_not_above zero k h (suc zero, m, e) = rw (sym e) refl
top_not_above zero k h (suc (suc j), m, e) = absurd (omega arith)
top_not_above (suc zero) k h (zero, m, e) = rw (sym e) refl
top_not_above (suc zero) k h (suc zero, m, e) = rw (sym e) refl
top_not_above (suc zero) k h (suc (suc j), m, e) = absurd (omega arith)
top_not_above (suc (suc i)) k h t = absurd (omega arith)

top_above_next :
    (i : ℕ) (k : Key ℕ)
    → i + 1 < 2
    → InTree counts nodes zero (node_id_of_key counts top i) k
    → key_less counts (get_key counts top (i + 1)) k ≡ true
unfolding node_id_of_key get_key key_less compare_with
top_above_next zero k h (zero, m, e) = rw (sym e) refl
top_above_next zero k h (suc zero, m, e) = rw (sym e) refl
top_above_next zero k h (suc (suc j), m, e) = absurd (omega arith)
top_above_next (suc i) k h t = absurd (omega arith)

top-IsInner : IsInner counts nodes (IsTree counts nodes zero) (InTree counts nodes zero) top
top-IsInner = record {
  inner = refl;
  child = top_child;
  filled = top_filled;
  first = top_first;
  not_above = top_not_above;
  above_next = top_above_next;
}

top_above : key_less counts (get_key counts top 0) (key 4 0) ≡ false
unfolding key_less get_key compare_with
top_above = refl

find_key_lem_example :
    (there : Bool) × (leaf : ℕ) × (i : ℕ) × (find_key counts nodes 2 1 (key 9 7) (key 4 0)
      ≡ some (there, leaf, i))
    × IsSmallest counts nodes (key 4 0) 1 1 (get_key counts (nodes leaf) i)
    × IsAnswer counts nodes (key 4 0) (key 9 7) there leaf i
find_key_lem_example =
    find_key_lem counts nodes (key 4 0) 1 2 1 (key 9 7) (omega arith) (top-IsNode, top-IsInner)
      (omega arith) top_above

below_front : key_less counts (get_key counts upper 0) (key 12 0) ≡ true
unfolding key_less get_key compare_with
below_front = refl

insert_key-front_example : insert_key counts 1000 upper (key 12 0) ≡ none
insert_key-front_example =
    insert_key-front counts 1000 upper (key 12 0) upper-IsDescending (omega arith) below_front
