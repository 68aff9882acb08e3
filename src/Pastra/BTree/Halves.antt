-- ===== src/Pastra/BTree/Halves.antt =====
-- `Split` and `Join` of DBS_BTreeNode one after the other.
use whais.Prelude.{ℕ, ◌+◌, ◌-◌, ◌/◌, ◌^◌, ◌<◌, ◌≡◌, ap, sym, ◌∙◌, true, arith}
use native.Mathlib.Decide.{dec_lt}
use whais.Pastra.BTree.{Values, BTreeNode, get_key, node_id_of_key}
use whais.Pastra.BTree.Parts.{split_node, join_node}
use whais.Pastra.BTree.Keys.{key_less}
use whais.Pastra.BTree.Written.{IsNode}
use whais.Pastra.BTree.Entries.{Holds}
use whais.Pastra.BTree.Split.{Slice, split_node_lem, split_node-nulls}
use whais.Pastra.BTree.Join.{behind, Joined, join_node_lem}

-- Two halves make up the whole.
behind-halves :
    {A : Type 0} (first count : ℕ) (whole upper lower : ℕ → A)
    → ((j : ℕ) → j < first → upper j ≡ whole (0 + j))
    → ((j : ℕ) → j < count → lower j ≡ whole (first + j))
    → (j : ℕ) → j < first + count
    → behind first upper lower j ≡ whole (0 + j)
behind-halves first count whole upper lower hu hl j hj = elim (dec_lt j first) [
  | yes early ↦ ground (arith, hu j)
  | no late ↦
      let e : whole (first + (j - first)) ≡ whole (0 + j) = ap whole (omega arith) in
      ground (arith, hl (j - first), e)
]

module _ {V : Type 0} (v : Values V) (n allocated : BTreeNode V) (w : IsNode v n)
    (few : n.keys_count < 2 ^ 16)
    (h : Holds v (n.keys_count - n.keys_count / 2) (record allocated { leaf = n.leaf }))
    (room : Holds v n.keys_count n) where
  -- The arrays of the node itself stay.
  upper-Holds :
      Holds v
        ((split_node v n allocated).0.keys_count + (split_node v n allocated).1.keys_count)
        (split_node v n allocated).0
  unfolding split_node
  upper-Holds =
      let (u, l) = split_node_lem v n allocated w few h in
      let e : (split_node v n allocated).0.keys_count + (split_node v n allocated).1.keys_count
          ≡ n.keys_count =
        omega (arith, u.keys_count, l.keys_count) in
      record {
        rows = omega (arith, e, room.rows);
        values = omega (arith, e, room.values);
        child_nodes = λ inner. omega (arith, e, room.child_nodes inner);
      }

  halves-descend :
      (i j : ℕ)
      → i < (split_node v n allocated).0.keys_count
      → j < (split_node v n allocated).1.keys_count
      → key_less v
          (get_key v (split_node v n allocated).1 j)
          (get_key v (split_node v n allocated).0 i)
        ≡ true
  halves-descend i j hi hj =
      let (u, l) = split_node_lem v n allocated w few h in
      rw (u.keys i (omega (arith, u.keys_count)), l.keys j (omega (arith, l.keys_count)))
        (w.descending (0 + i) (n.keys_count / 2 + j) (omega (arith, u.keys_count))
          (omega (arith, l.keys_count)))

  halves-Joined :
      Joined v
        (split_node v n allocated).1
        (split_node v n allocated).0
        (join_node v (split_node v n allocated).1 (split_node v n allocated).0)
  halves-Joined =
      let (u, l) = split_node_lem v n allocated w few h in
      join_node_lem v (split_node v n allocated).1 (split_node v n allocated).0 l.node u.node
        (l.leaf ∙ sym u.leaf) (omega (arith, u.keys_count, l.keys_count, few)) upper-Holds
        (split_node-nulls v n allocated w few h) halves-descend

  -- `Join` of the two halves that `Split` made of a node with at most 65535 keys, whose arrays have
  -- room for its keys as the node allocated has for the lower half: the node has its keys and
  -- children back, in their places, and is well formed.
  pub join_node-split_node :
      Slice v n 0 n.keys_count
        (join_node v (split_node v n allocated).1 (split_node v n allocated).0)
  join_node-split_node =
      let (u, l) = split_node_lem v n allocated w few h in
      let m = halves-Joined in
      let first = (split_node v n allocated).0.keys_count in
      let count = (split_node v n allocated).1.keys_count in
      let e : first + count ≡ n.keys_count = omega (arith, u.keys_count, l.keys_count) in
      let later : (j : ℕ) → n.keys_count / 2 + j ≡ first + j = λ j. omega (arith, u.keys_count) in
      record {
        leaf = m.leaf ∙ u.leaf;
        keys_count = m.keys_count ∙ omega (arith, u.keys_count, l.keys_count);
        node = m.node;
        keys = λ j hj.
            m.keys j (omega (arith, e))
            ∙ behind-halves first count (get_key v n) (get_key v (split_node v n allocated).0)
                (get_key v (split_node v n allocated).1)
                (λ i hi. u.keys i (omega (arith, u.keys_count)))
                (λ i hi. l.keys i (omega (arith, l.keys_count)) ∙ ap (get_key v n) (later i)) j
                (omega (arith, e));
        nodes = λ inner j hj.
            m.nodes (u.leaf ∙ inner) j (omega (arith, e))
            ∙ behind-halves first count (node_id_of_key v n)
                (node_id_of_key v (split_node v n allocated).0)
                (node_id_of_key v (split_node v n allocated).1)
                (λ i hi. u.nodes inner i (omega (arith, u.keys_count)))
                (λ i hi.
                  l.nodes inner i (omega (arith, l.keys_count)) ∙ ap (node_id_of_key v n) (later i))
                j (omega (arith, e));
      }
