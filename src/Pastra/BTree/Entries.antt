-- ===== src/Pastra/BTree/Entries.antt =====
-- The entries of a node after the loops of Split and Join, as keys and children.
use whais.Prelude.{
  ℕ, ◌+◌, ◌-◌, ◌≤◌, ◌<◌, ◌≡◌, refl, ap, sym, ◌∙◌, Bool, true, false, arith, length, get_or,
  if◌then◌else◌,
}
use whais.Pastra.BTree.{Values, BTreeNode, get_key, node_id_of_key}
use whais.Pastra.BTree.Parts.{copy_keys, copy_nodes, copy_entries}
use whais.Pastra.BTree.Copy.{copied, Kept, copy_keys_lem, copy_nodes_lem, copy_nodes-rest}

module _ {V : Type 0} (v : Values V) where
  open v use {null}

  -- The arrays hold that many entries.
  pub record Holds (entries : ℕ) (n : BTreeNode V) : Type 0 where
    pub rows : entries ≤ length n.rows
    pub values : entries ≤ length n.values
    pub child_nodes : n.leaf ≡ false → entries ≤ length n.child_nodes

  pub record Moved (left from to : ℕ) (source n n' : BTreeNode V) : Type 0 where
    pub kept : Kept v n n'
    pub rows :
        (j : ℕ)
        → get_or n'.rows j 0
          ≡ copied left from to (λ i. (get_key v source i).row) (λ i. get_or n.rows i 0) j
    pub values :
        (j : ℕ)
        → j < n.keys_count - n.null_keys_count
        → get_or n'.values j null
          ≡ copied left from to (λ i. (get_key v source i).value) (λ i. get_or n.values i null) j
    pub nodes :
        n.leaf ≡ false
        → (j : ℕ)
        → get_or n'.child_nodes j 0
          ≡ copied left from to (node_id_of_key v source) (λ i. get_or n.child_nodes i 0) j

  module _ (source n : BTreeNode V) (left from to : ℕ) (h : Holds (to + left) n) where
    abbrev AfterKeys : Bool → BTreeNode V
    AfterKeys leaf =
        let n₁ = copy_keys v source left from to n in
        if leaf then n₁ else copy_nodes v source left from to n₁

    after_keys_lem : (leaf : Bool) → n.leaf ≡ leaf → Moved left from to source n (AfterKeys leaf)
    after_keys_lem true e =
        let c = copy_keys_lem v source left from to n h.rows h.values in
        record {
          kept = c.kept;
          rows = c.rows;
          values = c.values;
          nodes = λ inner. absurd (ground (arith, e, inner));
        }
    after_keys_lem false e =
        let c = copy_keys_lem v source left from to n h.rows h.values in
        let n₁ = copy_keys v source left from to n in
        let (k, r, w) = copy_nodes-rest v source left from to n₁ in
        record {
          kept = record {
            leaf = k.leaf ∙ c.kept.leaf;
            keys_count = k.keys_count ∙ c.kept.keys_count;
            null_keys_count = k.null_keys_count ∙ c.kept.null_keys_count;
          };
          rows = λ j. ap (λ cells. get_or cells j 0) r ∙ c.rows j;
          values = λ j hj. ap (λ cells. get_or cells j null) w ∙ c.values j hj;
          nodes = λ inner j.
              rw
                (
                  copy_nodes_lem v source left from to n₁ (rw c.child_nodes (h.child_nodes inner))
                      j,
                  c.child_nodes,
                )
                refl;
        }

    pub copy_entries_lem :
        source.leaf ≡ n.leaf → Moved left from to source n (copy_entries v source left from to n)
    unfolding copy_entries
    copy_entries_lem e = after_keys_lem source.leaf (sym e)

  module _ {source n n' : BTreeNode V} {left from to : ℕ} (m : Moved left from to source n n') where
    pub moved-key :
        (j : ℕ)
        → to ≤ j
        → j < to + left
        → (n.keys_count - n.null_keys_count ≤ j → (get_key v source (from + (j - to))).value ≡ null)
        → get_key v n' j ≡ get_key v source (from + (j - to))
    unfolding get_key
    moved-key j hj hk empty =
        ground (arith, m.rows j, m.values j, m.kept.keys_count, m.kept.null_keys_count, empty)

    pub moved-kept : (j : ℕ) → j < to → get_key v n' j ≡ get_key v n j
    unfolding get_key
    moved-kept j hj =
        ground (arith, m.rows j, m.values j, m.kept.keys_count, m.kept.null_keys_count)

    pub moved-node :
        (j : ℕ)
        → n.leaf ≡ false
        → to ≤ j
        → j < to + left
        → node_id_of_key v n' j ≡ node_id_of_key v source (from + (j - to))
    unfolding node_id_of_key
    moved-node j inner hj hk = ground (arith, m.nodes inner j)

    pub kept-node : (j : ℕ) → n.leaf ≡ false → j < to → node_id_of_key v n' j ≡ node_id_of_key v n j
    unfolding node_id_of_key
    kept-node j inner hj = ground (arith, m.nodes inner j)
