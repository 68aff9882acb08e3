-- ===== src/Pastra/BTree/Parts.antt =====
-- The keys that DBS_BTreeNode::Split and Join move between two nodes, in
-- dbs/pastra/ps_btree_fields.h. What they change in the parent and in the neighbours' links is not
-- part of this.
use whais.Prelude.{ℕ, zero, suc, ◌+◌, ◌-◌, ◌/◌, ◌%◌, ◌^◌, ltb, if◌then◌else◌}
use whais.Pastra.BTree.{Values, BTreeNode, get_key, set_key, node_id_of_key, set_node_of_key}

module _ {V : Type 0} (v : Values V) where
  -- `left` keys of `source`, from `from` on, become keys of `target` from `to` on.
  unfoldable pub copy_keys : BTreeNode V → ℕ → ℕ → ℕ → BTreeNode V → BTreeNode V
  copy_keys source zero from to target = target
  copy_keys source (suc left) from to target =
      copy_keys source left (from + 1) (to + 1) (set_key v target (get_key v source from) to)

  unfoldable pub copy_nodes : BTreeNode V → ℕ → ℕ → ℕ → BTreeNode V → BTreeNode V
  copy_nodes source zero from to target = target
  copy_nodes source (suc left) from to target =
      copy_nodes source left (from + 1) (to + 1)
        (set_node_of_key v target to (node_id_of_key v source from))

  -- The loops over the keys, and over the children of an inner node.
  unfoldable pub copy_entries : BTreeNode V → ℕ → ℕ → ℕ → BTreeNode V → BTreeNode V
  copy_entries source count from to target =
      let target' = copy_keys source count from to target in
      if source.leaf then target' else copy_nodes source count from to target'

  -- `KeysCount` and `NullKeysCount` store 16 bits.
  abbrev pub with_counts : ℕ → ℕ → BTreeNode V → BTreeNode V
  with_counts keys nulls n = record n {
    keys_count = keys % 2 ^ 16;
    null_keys_count = nulls % 2 ^ 16;
  }

  -- The null keys of the upper half of the places.
  unfoldable pub moved_nulls : BTreeNode V → ℕ
  moved_nulls n =
      let split_key_index = n.keys_count / 2 in
      if ltb (n.keys_count - n.null_keys_count) split_key_index
      then n.keys_count - split_key_index
      else n.null_keys_count

  -- `Split`: the node and the node that was allocated, afterwards.
  unfoldable pub split_node : BTreeNode V → BTreeNode V → BTreeNode V × BTreeNode V
  split_node n allocated =
      let split_key_index = n.keys_count / 2 in
      let nulls = moved_nulls n in
      let target =
        with_counts (n.keys_count - split_key_index) nulls (record allocated { leaf = n.leaf }) in
      (
        with_counts split_key_index (n.null_keys_count - nulls) n,
        copy_entries n (n.keys_count - split_key_index) split_key_index 0 target,
      )

  -- `Join`: the node that takes the keys of the other behind its own.
  unfoldable pub join_node : BTreeNode V → BTreeNode V → BTreeNode V
  join_node n taker =
      let target =
        with_counts (taker.keys_count + n.keys_count) (taker.null_keys_count + n.null_keys_count)
          taker in
      copy_entries n n.keys_count 0 taker.keys_count target
