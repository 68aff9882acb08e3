-- ===== src/Pastra/BTree/Tests/Halves.antt =====
-- Runs of Split and Join on the nodes of the tests of a tree.
use whais.Prelude.{
  ℕ, zero, suc, ◌+◌, ◌≤◌, ◌<◌, ◌≡◌, refl, inl, true, false, replicate, [], ◌∷◌, arith,
}
use whais.Pastra.BTree.{BTreeNode, get_key, set_key, compare_with, needs_joining, needs_spliting}
use whais.Pastra.BTree.Keys.{key_less}
use whais.Pastra.BTree.Search.{IsDescending}
use whais.Pastra.BTree.Written.{IsNode}
use whais.Pastra.BTree.Capacity.{join_node-fits, split_node-balanced}
use whais.Pastra.BTree.Parts.{copy_keys, copy_entries, moved_nulls, split_node, join_node}
use whais.Pastra.BTree.Split.{Slice, split_node_lem}
use whais.Pastra.BTree.Join.{Joined, join_node_lem}
use whais.Pastra.BTree.Halves.{join_node-split_node}
use whais.Pastra.BTree.Tests.{
  counts, upper, lower, top, two_stored, upper-IsNode, lower-IsNode, top-IsNode,
}

-- A node just allocated.
abbrev fresh : BTreeNode ℕ
fresh = record {
  leaf = true;
  keys_count = 0;
  null_keys_count = 0;
  rows = 0 ∷ 0 ∷ 0 ∷ [];
  child_nodes = 0 ∷ 0 ∷ 0 ∷ [];
  values = 0 ∷ 0 ∷ 0 ∷ [];
}

null_moves : (split_node counts lower fresh).1.null_keys_count ≡ 1
unfolding split_node moved_nulls copy_entries copy_keys set_key
null_moves = refl

split_node_lem_example :
    Slice counts top 0 1 (split_node counts top fresh).0
    × Slice counts top 1 1 (split_node counts top fresh).1
split_node_lem_example =
    split_node_lem counts top fresh top-IsNode (omega arith)
      record { rows = omega arith; values = omega arith; child_nodes = λ h. omega arith }

lower_below :
    (i j : ℕ)
    → i < 2
    → j < 2
    → key_less counts (get_key counts lower j) (get_key counts upper i) ≡ true
unfolding key_less get_key compare_with
lower_below zero zero h k = refl
lower_below zero (suc zero) h k = refl
lower_below (suc zero) zero h k = refl
lower_below (suc zero) (suc zero) h k = refl
lower_below zero (suc (suc j)) h k = absurd (omega arith)
lower_below (suc zero) (suc (suc j)) h k = absurd (omega arith)
lower_below (suc (suc i)) j h k = absurd (omega arith)

join_node_lem_example : Joined counts lower upper (join_node counts lower upper)
join_node_lem_example =
    join_node_lem counts lower upper lower-IsNode upper-IsNode refl (omega arith)
      record {
        rows = omega arith;
        values = omega arith;
        child_nodes = λ h. absurd (ground (arith, h));
      }
      (inl refl) lower_below

join_node-split_node_example :
    Slice counts lower 0 2
      (join_node counts (split_node counts lower fresh).1 (split_node counts lower fresh).0)
join_node-split_node_example =
    join_node-split_node counts lower fresh lower-IsNode (omega arith)
      record {
        rows = omega arith;
        values = omega arith;
        child_nodes = λ h. absurd (ground (arith, h));
      }
      record {
        rows = omega arith;
        values = omega arith;
        child_nodes = λ h. absurd (ground (arith, h));
      }

few_keys : needs_joining 2 12 ≡ true
unfolding needs_joining
few_keys = refl

enough_room : needs_spliting 1 12 ≡ false
unfolding needs_spliting
enough_room = refl

-- The keys of `upper` in a node for 12 keys.
abbrev wide : BTreeNode ℕ
wide = record upper { rows = 7 ∷ 3 ∷ replicate 10 0; values = 9 ∷ 6 ∷ replicate 10 0 }

wide-IsDescending : IsDescending counts wide
unfolding key_less get_key compare_with
wide-IsDescending zero zero h k = absurd (omega arith)
wide-IsDescending zero (suc zero) h k = refl
wide-IsDescending zero (suc (suc j)) h k = absurd (omega arith)
wide-IsDescending (suc i) j h k = absurd (omega arith)

wide-IsNode : IsNode counts wide
wide-IsNode = record {
  nulls = omega arith;
  stored = λ i h. two_stored 9 6 (replicate 10 0) (omega arith) (omega arith) i h;
  descending = wide-IsDescending;
}

wide_above :
    (i j : ℕ)
    → i < 2
    → j < 2
    → key_less counts (get_key counts lower j) (get_key counts wide i) ≡ true
unfolding key_less get_key compare_with
wide_above zero zero h k = refl
wide_above zero (suc zero) h k = refl
wide_above (suc zero) zero h k = refl
wide_above (suc zero) (suc zero) h k = refl
wide_above zero (suc (suc j)) h k = absurd (omega arith)
wide_above (suc zero) (suc (suc j)) h k = absurd (omega arith)
wide_above (suc (suc i)) j h k = absurd (omega arith)

join_node-fits_example :
    Joined counts lower wide (join_node counts lower wide)
    × ((join_node counts lower wide).keys_count + 3 ≤ 12)
join_node-fits_example =
    join_node-fits counts 12 (omega arith) lower wide 1 (omega arith) lower-IsNode wide-IsNode refl
      record {
        rows = omega arith;
        values = omega arith;
        child_nodes = λ h. absurd (ground (arith, h));
      }
      (inl refl) wide_above few_keys enough_room (omega arith)

full_node : needs_spliting 2 4 ≡ true
unfolding needs_spliting
full_node = refl

split_node-balanced_example :
    (needs_joining (split_node counts top fresh).0.keys_count 4 ≡ false)
    × (needs_joining (split_node counts top fresh).1.keys_count 4 ≡ false)
split_node-balanced_example =
    split_node-balanced counts 4 (omega arith) top fresh (omega arith) top-IsNode (omega arith)
      record { rows = omega arith; values = omega arith; child_nodes = λ h. omega arith } full_node
