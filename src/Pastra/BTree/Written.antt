-- ===== src/Pastra/BTree/Written.antt =====
-- The arrays of a node that takes a key: the room that is made, and the entry that is written in it.
use whais.Prelude.{
  ℕ, ◌+◌, ◌-◌, ◌^◌, ◌≤◌, ◌<◌, ◌≡◌, ◌≢◌, refl, inl, inr, true, false, ◌&&◌, some, List, arith,
  length, get_or, get_or-set, ltb, leb, ◌==◌, if◌then◌else◌, Bool-cases,
}
use whais.Pastra.BTree.{
  Values, Key, BTreeNode, make_array_room, get_key, set_key, make_room, count_key,
}
use whais.Pastra.BTree.Arrays.{make_array_room_lem}
use whais.Pastra.BTree.Keys.{key_less}
use whais.Pastra.BTree.Search.{IsDescending}

-- An entry is put in at `p`.
abbrev pub inserted : {A : Type 0} → ℕ → A → (ℕ → A) → ℕ → A
inserted p a old j = if ltb j p then old j else if j == p then a else old (j - 1)

module _ {V : Type 0} (v : Values V) where
  open v use {order, equal_iff, null, is_null, null_is_null, is_null_only, null_below}

  -- The arrays hold the keys and one more.
  pub record HasRoom (n : BTreeNode V) : Type 0 where
    pub rows : n.keys_count < length n.rows
    pub values : n.keys_count < length n.values
    pub child_nodes : n.leaf ≡ false → n.keys_count < length n.child_nodes
    pub few : n.keys_count + 1 < 2 ^ 16

  -- The keys descend, and the null ones are those that are counted.
  pub record IsNode (n : BTreeNode V) : Type 0 where
    pub nulls : n.null_keys_count ≤ n.keys_count
    pub stored :
        (i : ℕ) → i < n.keys_count - n.null_keys_count → is_null (get_or n.values i null) ≡ false
    pub descending : IsDescending v n

  -- The cells from `p` on move up in each array.
  pub record Roomy (p : ℕ) (n n' : BTreeNode V) : Type 0 where
    keys_kept : n'.keys_count ≡ n.keys_count
    nulls_kept : n'.null_keys_count ≡ n.null_keys_count
    leaf_kept : n'.leaf ≡ n.leaf
    rows_length : length n'.rows ≡ length n.rows
    values_length : length n'.values ≡ length n.values
    rows_moved :
        (j : ℕ)
        → get_or n'.rows j 0
          ≡ (if ltb p j && leb j n.keys_count then get_or n.rows (j - 1) 0 else get_or n.rows j 0)
    values_moved :
        (j : ℕ)
        → get_or n'.values j null ≡ (
            if ltb p j && leb j n.keys_count
            then get_or n.values (j - 1) null
            else get_or n.values j null)
    nodes_moved :
        n.leaf ≡ false
        → (j : ℕ)
        → get_or n'.child_nodes j 0 ≡ (
            if ltb p j && leb j n.keys_count
            then get_or n.child_nodes (j - 1) 0
            else get_or n.child_nodes j 0)

  make_room-eq :
      (fuel p : ℕ) (n : BTreeNode V) (rows nodes : List ℕ) (values : List V)
      → make_array_room 0 fuel (n.keys_count - 1) p 1 n.rows ≡ some rows
      → (if n.leaf
          then some n.child_nodes
          else make_array_room 0 fuel (n.keys_count - 1) p 1 n.child_nodes)
        ≡ some nodes
      → make_array_room null fuel (n.keys_count - 1) p 1 n.values ≡ some values
      → make_room v fuel p n ≡ some record n { rows = rows; child_nodes = nodes; values = values }
  unfolding make_room
  make_room-eq fuel p n rows nodes values er en ev = rw (er, en, ev, make_room) refl

  pub make_room_lem :
      (fuel p : ℕ) (n : BTreeNode V)
      → HasRoom n
      → 0 < p
      → p ≤ n.keys_count
      → n.keys_count ≤ fuel
      → (n' : BTreeNode V) × (make_room v fuel p n ≡ some n') × Roomy p n n'
  make_room_lem fuel p n h hp hn enough =
      let last : n.keys_count - 1 + 1 ≡ n.keys_count = omega arith in
      let (rows, er, lr, gr) =
        make_array_room_lem 0 fuel (n.keys_count - 1) p n.rows hp (omega arith)
          (omega (arith, h.rows)) (omega (arith, h.few)) (omega arith) in
      let (values, ev, lv, gv) =
        make_array_room_lem null fuel (n.keys_count - 1) p n.values hp (omega arith)
          (omega (arith, h.values)) (omega (arith, h.few)) (omega arith) in
      elim (Bool-cases n.leaf) [
        | inl leaf ↦ (
          record n { rows = rows; child_nodes = n.child_nodes; values = values },
          make_room-eq fuel p n rows n.child_nodes values er (rw leaf refl) ev,
          record {
            keys_kept = refl;
            nulls_kept = refl;
            leaf_kept = refl;
            rows_length = lr;
            values_length = lv;
            rows_moved = λ j. ground (arith, gr j);
            values_moved = λ j. ground (arith, gv j);
            nodes_moved = λ inner. absurd (ground (arith, leaf, inner));
          },
        )
        | inr inner ↦
            let (nodes, en, ln, gn) =
              make_array_room_lem 0 fuel (n.keys_count - 1) p n.child_nodes hp (omega arith)
                (omega (arith, h.child_nodes inner)) (omega (arith, h.few)) (omega arith) in
            (
              record n { rows = rows; child_nodes = nodes; values = values },
              make_room-eq fuel p n rows nodes values er (rw inner en) ev,
              record {
                keys_kept = refl;
                nulls_kept = refl;
                leaf_kept = refl;
                rows_length = lr;
                values_length = lv;
                rows_moved = λ j. ground (arith, gr j);
                values_moved = λ j. ground (arith, gv j);
                nodes_moved = λ _ j. ground (arith, gn j);
              },
            )
      ]

  -- The key is counted and written.
  abbrev pub written : BTreeNode V → Key V → ℕ → BTreeNode V
  written n₁ key p = set_key v (count_key v key n₁) key p

  module _ {n n₁ : BTreeNode V} (key : Key V) {p : ℕ} (h : HasRoom n) (w : IsNode n)
      (r : Roomy p n n₁) (in_range : p ≤ n.keys_count)
      (after_nulls : is_null key.value ≡ true → n.keys_count - n.null_keys_count ≤ p)
      (before_nulls : is_null key.value ≡ false → p ≤ n.keys_count - n.null_keys_count) where
    pub written-keys_count : (written n₁ key p).keys_count ≡ n.keys_count + 1
    unfolding set_key count_key
    written-keys_count = omega (arith, r.keys_kept, h.few)

    written-null_keys_count :
        (written n₁ key p).null_keys_count
        ≡ (if is_null key.value then n.null_keys_count + 1 else n.null_keys_count)
    unfolding set_key count_key
    written-null_keys_count = ground (arith, r.nulls_kept, h.few, w.nulls)

    written-row :
        (j : ℕ)
        → j ≤ n.keys_count
        → get_or (written n₁ key p).rows j 0 ≡ inserted p key.row (λ i. get_or n.rows i 0) j
    unfolding set_key count_key
    written-row j hj =
        ground (arith, get_or-set n₁.rows p j key.row 0, r.rows_moved j, r.rows_length, h.rows)

    -- The cells that are read: those in front of the null keys.
    written-value :
        (j : ℕ)
        → j < (written n₁ key p).keys_count - (written n₁ key p).null_keys_count
        → get_or (written n₁ key p).values j null
          ≡ inserted p key.value (λ i. get_or n.values i null) j
    unfolding set_key count_key
    written-value j hj = ground (
      arith,
      get_or-set n₁.values p j key.value null,
      r.values_moved j,
      r.values_length,
      r.keys_kept,
      r.nulls_kept,
      h.values,
      h.few,
      w.nulls,
      after_nulls,
      before_nulls,
    )

    pub written-key :
        (j : ℕ) → j ≤ n.keys_count → get_key v (written n₁ key p) j ≡ inserted p key (get_key v n) j
    unfolding get_key
    written-key j hj = ground (
      arith,
      written-keys_count,
      written-null_keys_count,
      written-row j hj,
      written-value j,
      is_null_only key.value,
      after_nulls,
      before_nulls,
      w.nulls,
    )

    pub written-node :
        (j : ℕ)
        → n.leaf ≡ false
        → j ≢ p
        → j ≤ n.keys_count
        → get_or (written n₁ key p).child_nodes j 0 ≡ inserted p 0 (λ i. get_or n.child_nodes i 0) j
    unfolding set_key count_key
    written-node j inner hj hn = ground (arith, r.nodes_moved inner j)

    written-stored :
        (j : ℕ)
        → j < (written n₁ key p).keys_count - (written n₁ key p).null_keys_count
        → is_null (get_or (written n₁ key p).values j null) ≡ false
    written-stored j hj = rw (written-value j hj) (
        ground (
          arith,
          written-keys_count,
          written-null_keys_count,
          w.stored j,
          w.stored (j - 1),
          w.nulls,
          after_nulls,
          before_nulls,
        ))

    module _ (above : (i : ℕ) → i < p → key_less v key (get_key v n i) ≡ true)
        (below : (i : ℕ) → p ≤ i → i < n.keys_count → key_less v (get_key v n i) key ≡ true) where
      written-IsDescending : IsDescending v (written n₁ key p)
      written-IsDescending i j hi hj =
          let first = written-key i (omega (arith, written-keys_count)) in
          let second = written-key j (omega (arith, written-keys_count)) in
          rw (first, second)
            (ground (
              arith,
              written-keys_count,
              w.descending i j,
              w.descending i (j - 1),
              w.descending (i - 1) (j - 1),
              above i,
              below (j - 1),
            ))

      pub written-IsNode : IsNode (written n₁ key p)
      written-IsNode = record {
        nulls = ground (arith, written-keys_count, written-null_keys_count, w.nulls);
        stored = written-stored;
        descending = written-IsDescending;
      }
