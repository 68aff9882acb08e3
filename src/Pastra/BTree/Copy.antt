-- ===== src/Pastra/BTree/Copy.antt =====
-- Copying entries from a node to a node.
use native.Mathlib.Decide.{dec_lt, ℕ_discrete}
use whais.Prelude.{
  ℕ, zero, suc, ◌+◌, ◌-◌, ◌≤◌, ◌<◌, ◌≡◌, refl, ap, ◌∙◌, ◌&&◌, arith, length, length-set, get_or,
  get_or-set, ltb, leb, ◌==◌, if◌then◌else◌,
}
use whais.Pastra.BTree.{Values, Key, BTreeNode, get_key, set_key, node_id_of_key, set_node_of_key}
use whais.Pastra.BTree.Parts.{copy_keys, copy_nodes}

-- The places `to` to `to + left - 1` take what stands from `from` on.
abbrev pub copied : {A : Type 0} → ℕ → ℕ → ℕ → (ℕ → A) → (ℕ → A) → ℕ → A
copied left from to source target j =
    if leb to j && ltb j (to + left) then source (from + (j - to)) else target j

-- One place more.
copied-step :
    {A : Type 0} (left from to j : ℕ) (source old target : ℕ → A)
    → target j ≡ (if j == to then source from else old j)
    → copied left (from + 1) (to + 1) source target j ≡ copied (suc left) from to source old j
copied-step left from to j source old target h = elim (dec_lt to j) [
  | yes over ↦
      let e : source (from + 1 + (j - (to + 1))) ≡ source (from + (j - to)) =
        ap source (omega arith) in
      ground (arith, e)
  | no not_over ↦ elim (ℕ_discrete j to) [
    | yes here ↦
        let e : source (from + (j - to)) ≡ source from = ap source (omega arith) in
        ground (arith, e)
    | no under ↦ ground arith
  ]
]

module _ {V : Type 0} (v : Values V) where
  open v use {null}

  -- What stays of the node that is written.
  pub record Kept (n n' : BTreeNode V) : Type 0 where
    pub leaf : n'.leaf ≡ n.leaf
    pub keys_count : n'.keys_count ≡ n.keys_count
    pub null_keys_count : n'.null_keys_count ≡ n.null_keys_count

  pub record Copied (left from to : ℕ) (source n n' : BTreeNode V) : Type 0 where
    pub kept : Kept n n'
    pub rows_length : length n'.rows ≡ length n.rows
    pub values_length : length n'.values ≡ length n.values
    pub child_nodes : n'.child_nodes ≡ n.child_nodes
    pub rows :
        (j : ℕ)
        → get_or n'.rows j 0
          ≡ copied left from to (λ i. (get_key v source i).row) (λ i. get_or n.rows i 0) j
    pub values :
        (j : ℕ)
        → j < n.keys_count - n.null_keys_count
        → get_or n'.values j null
          ≡ copied left from to (λ i. (get_key v source i).value) (λ i. get_or n.values i null) j

  module _ (n : BTreeNode V) (key : Key V) (i : ℕ) where
    set_key-Kept : Kept n (set_key v n key i)
    unfolding set_key
    set_key-Kept = record { leaf = refl; keys_count = refl; null_keys_count = refl }

    set_key-child_nodes : (set_key v n key i).child_nodes ≡ n.child_nodes
    unfolding set_key
    set_key-child_nodes = refl

    length-set_key-rows : length (set_key v n key i).rows ≡ length n.rows
    unfolding set_key
    length-set_key-rows = length-set n.rows i key.row

    length-set_key-values : length (set_key v n key i).values ≡ length n.values
    unfolding set_key
    length-set_key-values = ground (arith, length-set n.values i key.value)

    set_key-row :
        (j : ℕ)
        → i < length n.rows
        → get_or (set_key v n key i).rows j 0 ≡ (if j == i then key.row else get_or n.rows j 0)
    unfolding set_key
    set_key-row j h = get_or-set n.rows i j key.row 0 h

    set_key-value :
        (j : ℕ)
        → i < length n.values
        → j < n.keys_count - n.null_keys_count
        → get_or (set_key v n key i).values j null
          ≡ (if j == i then key.value else get_or n.values j null)
    unfolding set_key
    set_key-value j h hj = ground (arith, get_or-set n.values i j key.value null)

  pub copy_keys_lem :
      (source : BTreeNode V) (left from to : ℕ) (n : BTreeNode V)
      → to + left ≤ length n.rows
      → to + left ≤ length n.values
      → Copied left from to source n (copy_keys v source left from to n)
  unfolding copy_keys
  copy_keys_lem source zero from to n hr hv = record {
    kept = record { leaf = refl; keys_count = refl; null_keys_count = refl };
    rows_length = refl;
    values_length = refl;
    child_nodes = refl;
    rows = λ j. ground arith;
    values = λ j hj. ground arith;
  }
  copy_keys_lem source (suc left) from to n hr hv =
      let key : Key V = get_key v source from in
      let n₁ : BTreeNode V = set_key v n key to in
      let k : Kept n n₁ = set_key-Kept n key to in
      let ih : Copied left (from + 1) (to + 1) source n₁
          (copy_keys v source left (from + 1) (to + 1) n₁) =
        copy_keys_lem source left (from + 1) (to + 1) n₁
          (omega (arith, length-set_key-rows n key to))
          (omega (arith, length-set_key-values n key to)) in
      record {
        kept = record {
          leaf = ih.kept.leaf ∙ k.leaf;
          keys_count = ih.kept.keys_count ∙ k.keys_count;
          null_keys_count = ih.kept.null_keys_count ∙ k.null_keys_count;
        };
        rows_length = ih.rows_length ∙ length-set_key-rows n key to;
        values_length = ih.values_length ∙ length-set_key-values n key to;
        child_nodes = ih.child_nodes ∙ set_key-child_nodes n key to;
        rows = λ j.
            ih.rows j
            ∙ copied-step left from to j (λ i. (get_key v source i).row) (λ i. get_or n.rows i 0)
                (λ i. get_or n₁.rows i 0) (set_key-row n key to j (omega arith));
        values = λ j hj.
            ih.values j (omega (arith, k.keys_count, k.null_keys_count, hj))
            ∙ copied-step left from to j (λ i. (get_key v source i).value)
                (λ i. get_or n.values i null) (λ i. get_or n₁.values i null)
                (set_key-value n key to j (omega arith) hj);
      }

  pub copy_nodes_lem :
      (source : BTreeNode V) (left from to : ℕ) (n : BTreeNode V)
      → to + left ≤ length n.child_nodes
      → (j : ℕ)
      → get_or (copy_nodes v source left from to n).child_nodes j 0
        ≡ copied left from to (node_id_of_key v source) (λ i. get_or n.child_nodes i 0) j
  unfolding copy_nodes set_node_of_key
  copy_nodes_lem source zero from to n h j = ground arith
  copy_nodes_lem source (suc left) from to n h j =
      let id : ℕ = node_id_of_key v source from in
      let n₁ : BTreeNode V = set_node_of_key v n to id in
      copy_nodes_lem source left (from + 1) (to + 1) n₁
        (omega (arith, length-set n.child_nodes to id)) j
      ∙ copied-step left from to j (node_id_of_key v source) (λ i. get_or n.child_nodes i 0)
          (λ i. get_or n₁.child_nodes i 0) (get_or-set n.child_nodes to j id 0 (omega arith))

  -- The other arrays stay.
  pub copy_nodes-rest :
      (source : BTreeNode V) (left from to : ℕ) (n : BTreeNode V)
      → Kept n (copy_nodes v source left from to n)
        × ((copy_nodes v source left from to n).rows ≡ n.rows)
        × ((copy_nodes v source left from to n).values ≡ n.values)
  unfolding copy_nodes set_node_of_key
  copy_nodes-rest source zero from to n =
      (record { leaf = refl; keys_count = refl; null_keys_count = refl }, refl, refl)
  copy_nodes-rest source (suc left) from to n =
      let (k, r, w) =
        copy_nodes-rest source left (from + 1) (to + 1)
          (set_node_of_key v n to (node_id_of_key v source from)) in
      (
        record { leaf = k.leaf; keys_count = k.keys_count; null_keys_count = k.null_keys_count },
        r,
        w,
      )
