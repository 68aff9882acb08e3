-- ===== src/Pastra/BTree/Join.antt =====
-- `DBS_BTreeNode::Join`: the keys of a node go behind those of its neighbour.
use whais.Prelude.{
  ℕ, ◌+◌, ◌-◌, ◌^◌, ◌≤◌, ◌<◌, ◌≡◌, ap, ◌∙◌, ◌⊎◌, true, false, arith, get_or, ltb, if◌then◌else◌,
}
use native.Mathlib.Decide.{dec_lt}
use whais.Pastra.BTree.{Values, BTreeNode, get_key, node_id_of_key}
use whais.Pastra.BTree.Parts.{with_counts, join_node}
use whais.Pastra.BTree.Keys.{key_less}
use whais.Pastra.BTree.Written.{IsNode}
use whais.Pastra.BTree.Entries.{
  Holds, Moved, copy_entries_lem, moved-key, moved-node, moved-kept, kept-node,
}
use whais.Pastra.BTree.Split.{stored-key, null-key, value-key, recount-key}

-- One row of entries behind another.
abbrev pub behind : {A : Type 0} → ℕ → (ℕ → A) → (ℕ → A) → ℕ → A
behind count first second j = if ltb j count then first j else second (j - count)

module _ {V : Type 0} (v : Values V) where
  open v use {null, is_null}

  pub record Joined (n taker n' : BTreeNode V) : Type 0 where
    pub leaf : n'.leaf ≡ taker.leaf
    pub keys_count : n'.keys_count ≡ taker.keys_count + n.keys_count
    pub node : IsNode v n'
    pub keys :
        (j : ℕ)
        → j < taker.keys_count + n.keys_count
        → get_key v n' j ≡ behind taker.keys_count (get_key v taker) (get_key v n) j
    pub nodes :
        taker.leaf ≡ false
        → (j : ℕ) → j < taker.keys_count + n.keys_count
        → node_id_of_key v n' j
          ≡ behind taker.keys_count (node_id_of_key v taker) (node_id_of_key v n) j

  module _ (n taker : BTreeNode V) (w : IsNode v n) (w' : IsNode v taker)
      (same_kind : n.leaf ≡ taker.leaf) (few : taker.keys_count + n.keys_count < 2 ^ 16)
      (h : Holds v (taker.keys_count + n.keys_count) taker)
      (nulls_last : (taker.null_keys_count ≡ 0) ⊎ (n.keys_count ≡ n.null_keys_count)) where
    abbrev Target : BTreeNode V
    Target =
        with_counts v (taker.keys_count + n.keys_count) (taker.null_keys_count + n.null_keys_count)
          taker

    join_node-Moved : Moved v n.keys_count 0 taker.keys_count n Target (join_node v n taker)
    unfolding join_node
    join_node-Moved =
        copy_entries_lem v n Target n.keys_count 0 taker.keys_count
          record { rows = h.rows; values = h.values; child_nodes = h.child_nodes } same_kind

    join_node-keys_count : (join_node v n taker).keys_count ≡ taker.keys_count + n.keys_count
    join_node-keys_count = join_node-Moved.kept.keys_count ∙ omega (arith, few)

    join_node-null_keys_count :
        (join_node v n taker).null_keys_count ≡ taker.null_keys_count + n.null_keys_count
    join_node-null_keys_count =
        join_node-Moved.kept.null_keys_count ∙ omega (arith, few, w.nulls, w'.nulls)

    join_node-taker :
        (j : ℕ) → j < taker.keys_count → get_key v (join_node v n taker) j ≡ get_key v taker j
    join_node-taker j hj =
        moved-kept v join_node-Moved j hj
        ∙ recount-key v taker Target.keys_count Target.null_keys_count j
            (ground (arith, few, w.nulls, w'.nulls, nulls_last))

    join_node-moved :
        (j : ℕ)
        → taker.keys_count ≤ j
        → j < taker.keys_count + n.keys_count
        → get_key v (join_node v n taker) j ≡ get_key v n (j - taker.keys_count)
    join_node-moved j hj hk =
        moved-key v join_node-Moved j hj hk (λ over.
          null-key v n (0 + (j - taker.keys_count))
            (ground (arith, few, w.nulls, w'.nulls, nulls_last, over)))
        ∙ ap (get_key v n) (omega arith)

    join_node-key :
        (j : ℕ)
        → j < taker.keys_count + n.keys_count
        → get_key v (join_node v n taker) j
          ≡ behind taker.keys_count (get_key v taker) (get_key v n) j
    join_node-key j hj = ground (arith, join_node-taker j, join_node-moved j)

    join_node-node :
        taker.leaf ≡ false
        → (j : ℕ) → j < taker.keys_count + n.keys_count
        → node_id_of_key v (join_node v n taker) j
          ≡ behind taker.keys_count (node_id_of_key v taker) (node_id_of_key v n) j
    unfolding node_id_of_key
    join_node-node inner j hj =
        let m = join_node-Moved in
        let e : node_id_of_key v n (0 + (j - taker.keys_count))
            ≡ node_id_of_key v n (j - taker.keys_count) =
          ap (node_id_of_key v n) (omega arith) in
        ground (arith, kept-node v m j inner, moved-node v m j inner, e)

    join_node-stored :
        (j : ℕ)
        → j < (join_node v n taker).keys_count - (join_node v n taker).null_keys_count
        → is_null (get_or (join_node v n taker).values j null) ≡ false
    join_node-stored j hj =
        let nulls = join_node-null_keys_count in
        let inside : j < taker.keys_count + n.keys_count = omega (arith, join_node-keys_count) in
        rw (value-key v (join_node v n taker) j hj) (elim (dec_lt j taker.keys_count) [
          | yes first ↦ rw (join_node-taker j first) (
              stored-key v taker j w'
                (ground (arith, join_node-keys_count, nulls, w.nulls, w'.nulls, nulls_last)))
          | no second ↦ rw (join_node-moved j (omega arith) inside) (
              stored-key v n (j - taker.keys_count) w
                (ground (arith, join_node-keys_count, nulls, w.nulls, w'.nulls, nulls_last)))
        ])

    module _
        (above : (i j : ℕ)
          → i < taker.keys_count
          → j < n.keys_count
          → key_less v (get_key v n j) (get_key v taker i) ≡ true) where
      join_node-IsNode : IsNode v (join_node v n taker)
      join_node-IsNode = record {
        nulls = omega (arith, join_node-keys_count, join_node-null_keys_count, w.nulls, w'.nulls);
        stored = join_node-stored;
        descending = λ i j hij hj.
            rw
              (
                join_node-key i (omega (arith, join_node-keys_count)),
                join_node-key j (omega (arith, join_node-keys_count)),
              )
              (ground (
                arith,
                join_node-keys_count,
                above i (j - taker.keys_count),
                w'.descending i j,
                w.descending (i - taker.keys_count) (j - taker.keys_count),
              ));
      }

      -- `Join` of a node to a neighbour of its kind whose keys are above its own and whose arrays have
      -- room, with at most 65535 keys together, where the neighbour has no null key or the node has no
      -- other: all keys and children stand in the neighbour, its own ones first, and the neighbour is
      -- well formed.
      pub join_node_lem : Joined n taker (join_node v n taker)
      join_node_lem = record {
        leaf = join_node-Moved.kept.leaf;
        keys_count = join_node-keys_count;
        node = join_node-IsNode;
        keys = join_node-key;
        nodes = join_node-node;
      }
