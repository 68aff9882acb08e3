-- ===== src/Pastra/BTree/Split.antt =====
-- `DBS_BTreeNode::Split`: the lower half of the keys goes to the node that was allocated.
use whais.Prelude.{
  ℕ, ◌+◌, ◌-◌, ◌/◌, ◌^◌, ◌≤◌, ◌<◌, ◌≡◌, refl, ap, sym, ◌∙◌, ◌⊎◌, inl, inr, false, arith, get_or,
  leb,
}
use native.Mathlib.Decide.{dec_lt}
use whais.Pastra.BTree.{Values, BTreeNode, get_key, node_id_of_key}
use whais.Pastra.BTree.Parts.{with_counts, moved_nulls, split_node}
use whais.Pastra.BTree.Written.{IsNode}
use whais.Pastra.BTree.Entries.{Holds, Moved, copy_entries_lem, moved-key, moved-node}

module _ {V : Type 0} (v : Values V) where
  open v use {null, is_null, null_is_null}

  -- The keys from `first` on of a node, and nothing else.
  pub record Slice (n : BTreeNode V) (first count : ℕ) (n' : BTreeNode V) : Type 0 where
    pub leaf : n'.leaf ≡ n.leaf
    pub keys_count : n'.keys_count ≡ count
    pub node : IsNode v n'
    pub keys : (j : ℕ) → j < count → get_key v n' j ≡ get_key v n (first + j)
    pub nodes :
        n.leaf ≡ false
        → (j : ℕ) → j < count
        → node_id_of_key v n' j ≡ node_id_of_key v n (first + j)

  -- The null keys of a node are those whose value is null.
  pub stored-key :
      (n : BTreeNode V) (j : ℕ)
      → IsNode v n
      → j < n.keys_count - n.null_keys_count
      → is_null (get_key v n j).value ≡ false
  unfolding get_key
  stored-key n j w hj = ground (arith, w.stored j)

  pub null-key :
      (n : BTreeNode V) (j : ℕ)
      → n.keys_count - n.null_keys_count ≤ j
      → (get_key v n j).value ≡ null
  unfolding get_key
  null-key n j hj = ground arith

  pub value-key :
      (n : BTreeNode V) (j : ℕ)
      → j < n.keys_count - n.null_keys_count
      → get_or n.values j null ≡ (get_key v n j).value
  unfolding get_key
  value-key n j hj = ground arith

  -- The counts matter to a key only by whether it is null.
  pub recount-key :
      (n : BTreeNode V) (keys nulls j : ℕ)
      → leb (keys - nulls) j ≡ leb (n.keys_count - n.null_keys_count) j
      → get_key v (record n { keys_count = keys; null_keys_count = nulls }) j ≡ get_key v n j
  unfolding get_key
  recount-key n keys nulls j h = ground (arith, h)

  -- A node with a part of the keys of a well-formed one, and its null keys among them.
  slice-IsNode :
      (n n' : BTreeNode V) (first count : ℕ)
      → IsNode v n
      → first + count ≤ n.keys_count
      → n'.keys_count ≡ count
      → n'.null_keys_count ≤ count
      → ((j : ℕ) → j < count - n'.null_keys_count → first + j < n.keys_count - n.null_keys_count)
      → ((j : ℕ) → j < count → get_key v n' j ≡ get_key v n (first + j))
      → IsNode v n'
  slice-IsNode n n' first count w inside e nulls over keys = record {
    nulls = omega arith;
    stored = λ i hi.
        rw (value-key n' i hi, keys i (omega arith))
          (stored-key n (first + i) w (over i (omega arith)));
    descending = λ i j hij hj.
        rw (keys i (omega arith), keys j (omega arith))
          (w.descending (first + i) (first + j) (omega arith) (omega arith));
  }

  module _ (n allocated : BTreeNode V) (w : IsNode v n) (few : n.keys_count < 2 ^ 16) where
    moved_nulls-bounds :
        (moved_nulls v n ≤ n.null_keys_count)
        × (moved_nulls v n ≤ n.keys_count - n.keys_count / 2)
        × (n.null_keys_count - moved_nulls v n ≤ n.keys_count / 2)
    unfolding moved_nulls
    moved_nulls-bounds = (ground (arith, w.nulls), ground (arith, w.nulls), ground (arith, w.nulls))

    -- Nulls move as long as there are places that move.
    moved_nulls-stored :
        (j : ℕ)
        → j < n.keys_count - n.keys_count / 2 - moved_nulls v n
        → n.keys_count / 2 + j < n.keys_count - n.null_keys_count
    unfolding moved_nulls
    moved_nulls-stored j hj = ground (arith, w.nulls)

    moved_nulls-null :
        (j : ℕ)
        → n.keys_count - n.keys_count / 2 - moved_nulls v n ≤ j
        → n.keys_count - n.null_keys_count ≤ n.keys_count / 2 + j
    unfolding moved_nulls
    moved_nulls-null j hj = ground (arith, w.nulls)

    moved_nulls-kept :
        (j : ℕ)
        → j < n.keys_count / 2
        → leb (n.keys_count / 2 - (n.null_keys_count - moved_nulls v n)) j
          ≡ leb (n.keys_count - n.null_keys_count) j
    unfolding moved_nulls
    moved_nulls-kept j hj = ground (arith, w.nulls)

    upper_half-Slice : Slice n 0 (n.keys_count / 2) (split_node v n allocated).0
    unfolding split_node node_id_of_key
    upper_half-Slice =
        let (b, b', b'') = moved_nulls-bounds in
        let nulls = n.null_keys_count - moved_nulls v n in
        let n' = with_counts v (n.keys_count / 2) nulls n in
        let e : n'.keys_count ≡ n.keys_count / 2 = omega arith in
        let e' : n'.null_keys_count ≡ nulls = omega (arith, few, w.nulls) in
        let keys : (j : ℕ) → j < n.keys_count / 2 → get_key v n' j ≡ get_key v n (0 + j) = λ j hj.
          recount-key n n'.keys_count n'.null_keys_count j (rw (e, e') (moved_nulls-kept j hj))
          ∙ ap (get_key v n) (omega arith) in
        record {
          leaf = refl;
          keys_count = e;
          node =
              slice-IsNode n n' 0 (n.keys_count / 2) w (omega arith) e (omega (arith, e', b''))
                (λ j hj. ground (arith, moved_nulls-kept j, e')) keys;
          keys = keys;
          nodes = λ inner j hj. ap (node_id_of_key v n) (omega arith);
        }

    module _
        (h : Holds v (n.keys_count - n.keys_count / 2) (record allocated { leaf = n.leaf })) where
      abbrev Target : BTreeNode V
      Target =
          with_counts v (n.keys_count - n.keys_count / 2) (moved_nulls v n)
            (record allocated { leaf = n.leaf })

      lower_half-Moved :
          Moved v
            (n.keys_count - n.keys_count / 2)
            (n.keys_count / 2)
            0
            n
            Target
            (split_node v n allocated).1
      unfolding split_node
      lower_half-Moved =
          copy_entries_lem v n Target (n.keys_count - n.keys_count / 2) (n.keys_count / 2) 0
            record {
              rows = omega (arith, h.rows);
              values = omega (arith, h.values);
              child_nodes = λ inner. omega (arith, h.child_nodes inner);
            }
            refl

      lower_half-Slice :
          Slice n (n.keys_count / 2) (n.keys_count - n.keys_count / 2) (split_node v n allocated).1
      lower_half-Slice =
          let (b, b', b'') = moved_nulls-bounds in
          let m = lower_half-Moved in
          let half = n.keys_count / 2 in
          let n' = (split_node v n allocated).1 in
          let e : n'.keys_count ≡ n.keys_count - half = m.kept.keys_count ∙ omega arith in
          let e' : n'.null_keys_count ≡ moved_nulls v n =
            m.kept.null_keys_count ∙ omega (arith, few, w.nulls, b) in
          let keys : (j : ℕ) → j < n.keys_count - half → get_key v n' j ≡ get_key v n (half + j) =
            λ j hj.
              moved-key v m j (omega arith) (omega arith) (λ over.
                null-key n (half + (j - 0))
                  (omega (arith, moved_nulls-null j (omega (arith, b, b', w.nulls, few, over)))))
              ∙ ap (λ i. get_key v n (half + i)) (omega arith) in
          record {
            leaf = m.kept.leaf;
            keys_count = e;
            node =
                slice-IsNode n n' half (n.keys_count - half) w (omega arith) e
                  (omega (arith, e', b')) (λ j hj. moved_nulls-stored j (omega (arith, e'))) keys;
            keys = keys;
            nodes = λ inner j hj.
                moved-node v m j inner (omega arith) (omega arith)
                ∙ ap (λ i. node_id_of_key v n (half + i)) (omega arith);
          }

      -- Null keys stay only where all the keys that move are null.
      pub split_node-nulls :
          ((split_node v n allocated).0.null_keys_count ≡ 0)
          ⊎ ((split_node v n allocated).1.keys_count ≡ (split_node v n allocated).1.null_keys_count)
      unfolding split_node moved_nulls
      split_node-nulls =
          let kept = lower_half-Moved.kept in
          elim (dec_lt (n.keys_count - n.null_keys_count) (n.keys_count / 2)) [
            | yes over ↦
                inr (kept.keys_count ∙ ground (arith, few, w.nulls) ∙ sym kept.null_keys_count)
            | no fits ↦ inl (ground (arith, few, w.nulls))
          ]

      -- `Split` of a node with at most 65535 keys, where the node allocated has room for the lower
      -- half: the upper half of the keys stays, the lower half moves with its children, in their
      -- order, and both are well formed, their null keys counted.
      pub split_node_lem :
          Slice n 0 (n.keys_count / 2) (split_node v n allocated).0
          × Slice n
              (n.keys_count / 2)
              (n.keys_count - n.keys_count / 2)
              (split_node v n allocated).1
      split_node_lem = (upper_half-Slice, lower_half-Slice)
