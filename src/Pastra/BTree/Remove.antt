-- ===== src/Pastra/BTree/Remove.antt =====
-- `DBS_BTreeNode::RemoveKey`: one entry goes, and the others close up.
use whais.Prelude.{
  ℕ, ◌+◌, ◌-◌, ◌≤◌, ◌<◌, ◌≡◌, refl, false, arith, length, get_or, ltb, leb, if◌then◌else◌,
}
use whais.Pastra.BTree.{Values, BTreeNode, get_key, remove_key}
use whais.Pastra.BTree.Arrays.{remove_array_elemes_lem}
use whais.Pastra.BTree.Written.{IsNode}

-- The entry at `i` is left out.
abbrev pub removed : {A : Type 0} → ℕ → (ℕ → A) → ℕ → A
removed i old j = if ltb j i then old j else old (j + 1)

module _ {V : Type 0} (v : Values V) (n : BTreeNode V) (i : ℕ) where
  open v use {null, is_null}

  -- The arrays hold the keys.
  pub record HoldsKeys : Type 0 where
    pub rows : n.keys_count ≤ length n.rows
    pub values : n.keys_count ≤ length n.values
    pub child_nodes : n.leaf ≡ false → n.keys_count ≤ length n.child_nodes

  pub record Removed (n' : BTreeNode V) : Type 0 where
    pub count : n'.keys_count + 1 ≡ n.keys_count
    pub node : IsNode v n'
    pub keys : (j : ℕ) → j < n'.keys_count → get_key v n' j ≡ removed i (get_key v n) j
    pub nodes :
        (j : ℕ)
        → n.leaf ≡ false
        → j < n'.keys_count
        → get_or n'.child_nodes j 0 ≡ removed i (λ k. get_or n.child_nodes k 0) j

  module _ (w : IsNode v n) (h : HoldsKeys) (inside : i < n.keys_count) where
    remove_key-row :
        (j : ℕ)
        → j + 1 < n.keys_count
        → get_or (remove_key v n i).rows j 0 ≡ removed i (λ k. get_or n.rows k 0) j
    unfolding remove_key
    remove_key-row j hj =
        let (l, g) =
          remove_array_elemes_lem 0 (n.keys_count - 1) i n.rows (omega arith)
            (omega (arith, h.rows)) in
        ground (arith, g j)

    remove_key-value :
        (j : ℕ)
        → j + 1 < n.keys_count
        → get_or (remove_key v n i).values j null ≡ removed i (λ k. get_or n.values k null) j
    unfolding remove_key
    remove_key-value j hj =
        let (l, g) =
          remove_array_elemes_lem null (n.keys_count - 1) i n.values (omega arith)
            (omega (arith, h.values)) in
        ground (arith, g j)

    remove_key-node :
        (j : ℕ)
        → n.leaf ≡ false
        → j < (remove_key v n i).keys_count
        → get_or (remove_key v n i).child_nodes j 0 ≡ removed i (λ k. get_or n.child_nodes k 0) j
    unfolding remove_key
    remove_key-node j inner hj =
        let (l, g) =
          remove_array_elemes_lem 0 (n.keys_count - 1) i n.child_nodes (omega arith)
            (omega (arith, h.child_nodes inner)) in
        ground (arith, g j)

    remove_key-keys_count : (remove_key v n i).keys_count + 1 ≡ n.keys_count
    unfolding remove_key
    remove_key-keys_count = omega arith

    remove_key-null_keys_count : (remove_key v n i).null_keys_count ≡ (
        if leb (n.keys_count - n.null_keys_count) i
        then n.null_keys_count - 1
        else n.null_keys_count)
    unfolding remove_key
    remove_key-null_keys_count = refl

    remove_key-key :
        (j : ℕ)
        → j < (remove_key v n i).keys_count
        → get_key v (remove_key v n i) j ≡ removed i (get_key v n) j
    unfolding get_key
    remove_key-key j hj = ground (
      arith,
      remove_key-keys_count,
      remove_key-null_keys_count,
      remove_key-row j (omega (arith, remove_key-keys_count)),
      remove_key-value j (omega (arith, remove_key-keys_count)),
      w.nulls,
    )

    remove_key-IsNode : IsNode v (remove_key v n i)
    remove_key-IsNode = record {
      nulls = ground (arith, remove_key-keys_count, remove_key-null_keys_count, w.nulls);
      stored = λ j hj. rw (remove_key-value j (omega (arith, remove_key-keys_count))) (
          ground (
            arith,
            remove_key-keys_count,
            remove_key-null_keys_count,
            w.nulls,
            w.stored j,
            w.stored (j + 1),
          ));
      descending = λ a b hab hb.
          rw (remove_key-key a (omega arith), remove_key-key b hb)
            (ground (
              arith,
              remove_key-keys_count,
              w.descending a b,
              w.descending a (b + 1),
              w.descending (a + 1) (b + 1),
            ));
    }

    -- `RemoveKey` of an entry of a node: every other key, and the child of every other key of an
    -- inner node, keeps its order, and the null keys are still the last ones.
    pub remove_key_lem : Removed (remove_key v n i)
    remove_key_lem = record {
      count = remove_key-keys_count;
      node = remove_key-IsNode;
      keys = remove_key-key;
      nodes = remove_key-node;
    }
