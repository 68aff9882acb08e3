-- ===== src/Pastra/BTree/Descent.antt =====
-- `BTree::FindBiggerOrEqual`: from the root down to the leaf with the smallest key of the tree that
-- is not below the one looked for.
use native.Mathlib.Decide.{dec_lt, ℕ_discrete}
use whais.Prelude.{
  ℕ, zero, suc, ◌+◌, ◌<◌, ◌≡◌, ◌≢◌, refl, sym, subst, ◌⊎◌, inl, inr, Bool, true, false, some, arith,
}
use whais.Utils.Sort.Ranges.{less_irrefl, less_trans, not_less-less}
use whais.Pastra.BTree.{
  Values, Key, BTreeNode, Found, missing, at, endless, get_key, find_in_node, node_id_of_key,
  descend, past_sentinel, find_key, compare_with, compare_key, level,
}
use whais.Pastra.BTree.Keys.{key_less, key_order, key_less_asymm, not_key_less_trans}
use whais.Pastra.BTree.Search.{Sign-cases, IsLookup, find_in_node_lem}
use whais.Pastra.BTree.Written.{IsNode}

module _ {V : Type 0} (v : Values V) (retrieve : ℕ → BTreeNode V) where
  -- The keys of the leaves `height` levels below a node.
  abbrev pub InTree : ℕ → ℕ → Key V → Type 0
  InTree zero id k = (i : ℕ) × (i < (retrieve id).keys_count) × (get_key v (retrieve id) i ≡ k)
  InTree (suc height) id k =
      (i : ℕ) × (i < (retrieve id).keys_count) × InTree height (node_id_of_key v (retrieve id) i) k

  -- An inner node: the first key of a child is the key that it hangs on, and the keys below a child
  -- lie between that key and the next one.
  pub record IsInner (Below : ℕ → Type 0) (In : ℕ → Key V → Type 0) (n : BTreeNode V) : Type 0 where
    pub inner : n.leaf ≡ false
    pub child : (i : ℕ) → i < n.keys_count → Below (node_id_of_key v n i)
    pub filled : (i : ℕ) → i < n.keys_count → 0 < (retrieve (node_id_of_key v n i)).keys_count
    pub first :
        (i : ℕ) → i < n.keys_count → get_key v (retrieve (node_id_of_key v n i)) 0 ≡ get_key v n i
    pub not_above :
        (i : ℕ) (k : Key V)
        → i < n.keys_count
        → In (node_id_of_key v n i) k
        → key_less v (get_key v n i) k ≡ false
    pub above_next :
        (i : ℕ) (k : Key V)
        → i + 1 < n.keys_count
        → In (node_id_of_key v n i) k
        → key_less v (get_key v n (i + 1)) k ≡ true

  -- A tree of a height: the keys of every node descend.
  abbrev pub IsTree : ℕ → ℕ → Type 0
  IsTree zero id = IsNode v (retrieve id) × ((retrieve id).leaf ≡ true)
  IsTree (suc height) id =
      IsNode v (retrieve id) × IsInner (IsTree height) (InTree height) (retrieve id)

  module _ (key : Key V) where
    -- The smallest key of the tree that is not below the one looked for.
    pub record IsSmallest (height id : ℕ) (found : Key V) : Type 0 where
      pub there : InTree height id found
      pub not_below : key_less v found key ≡ false
      pub smallest :
          (k : Key V)
          → InTree height id k
          → (key_less v k key ≡ true) ⊎ (key_less v k found ≡ false)

    abbrev Descended : ℕ → ℕ → ℕ → Type 0
    Descended fuel height id =
        (leaf : ℕ) × (i : ℕ) × (descend v retrieve fuel id key ≡ some (leaf, i))
        × IsSmallest height id (get_key v (retrieve leaf) i)

    leaf-IsSmallest :
        (id r : ℕ)
        → IsNode v (retrieve id)
        → IsLookup v (retrieve id) key (at r)
        → IsSmallest zero id (get_key v (retrieve id) r)
    leaf-IsSmallest id r w (inside, not_below, below) = record {
      there = (r, inside, refl);
      not_below = not_below;
      smallest = λ k (j, hj, e). elim (dec_lt r j) [
        | yes later ↦ inl (rw (sym e) (below j later hj))
        | no here ↦ elim (dec_lt j r) [
          | yes before ↦ inr (rw (sym e) (key_less_asymm v _ _ (w.descending j r before inside)))
          | no not_before ↦
              let same : j ≡ r = omega arith in
              inr (rw (sym e) (rw same (less_irrefl (key_order v) (get_key v (retrieve id) r))))
        ]
      ];
    }

    inner-IsSmallest :
        (height id r : ℕ) (found : Key V)
        → IsTree (suc height) id
        → IsLookup v (retrieve id) key (at r)
        → IsSmallest height (node_id_of_key v (retrieve id) r) found
        → IsSmallest (suc height) id found
    inner-IsSmallest height id r found (w, t) (inside, not_below, below) s = record {
      there = (r, inside, s.there);
      not_below = s.not_below;
      smallest = λ k (j, hj, m). elim (dec_lt r j) [
        | yes later ↦ inl (
            not_less-less (key_order v) k (get_key v (retrieve id) j) key (t.not_above j k hj m)
              (below j later hj))
        | no here ↦ elim (dec_lt j r) [
          | no not_before ↦
              let same : j ≡ r = omega arith in
              s.smallest k (subst (λ x. InTree height (node_id_of_key v (retrieve id) x) k) same m)
          | yes before ↦ inr (before_found k j before m)
        ]
      ];
    }
      where
        before_found :
            (k : Key V) (j : ℕ)
            → j < r
            → InTree height (node_id_of_key v (retrieve id) j) k
            → key_less v k found ≡ false
        before_found k j before m =
            let over : key_less v (get_key v (retrieve id) r) k ≡ true = elim (dec_lt (j + 1) r) [
              | yes apart ↦
                  less_trans (key_order v) _ _ _ (w.descending (j + 1) r apart inside)
                    (t.above_next j k (omega arith) m)
              | no close ↦
                  let next : r ≡ j + 1 = omega arith in rw next (t.above_next j k (omega arith) m)
            ] in
            not_key_less_trans v k (get_key v (retrieve id) r) found (key_less_asymm v _ _ over)
              (t.not_above r found inside s.there)

    -- One node of the descent.
    leaf_found :
        (fuel id : ℕ) (f : Found)
        → find_in_node v (retrieve id) key ≡ f
        → IsLookup v (retrieve id) key f
        → IsTree zero id
        → 0 < (retrieve id).keys_count
        → key_less v (get_key v (retrieve id) 0) key ≡ false
        → Descended (suc fuel) zero id
    unfolding descend
    leaf_found fuel id endless e l t h first = absurd l
    leaf_found fuel id missing e l t h first = absurd (ground (arith, l 0 h, first))
    leaf_found fuel id (at r) e l (w, leaf) h first =
        (id, r, rw (e, leaf, descend) refl, leaf-IsSmallest id r w l)

    inner_found :
        (height fuel id : ℕ) (f : Found)
        → find_in_node v (retrieve id) key ≡ f
        → IsLookup v (retrieve id) key f
        → IsTree (suc height) id
        → 0 < (retrieve id).keys_count
        → key_less v (get_key v (retrieve id) 0) key ≡ false
        → ((i : ℕ)
            → i < (retrieve id).keys_count
            → key_less v (get_key v (retrieve id) i) key ≡ false
            → Descended fuel height (node_id_of_key v (retrieve id) i))
        → Descended (suc fuel) (suc height) id
    unfolding descend
    inner_found height fuel id endless e l t h first ih = absurd l
    inner_found height fuel id missing e l t h first ih = absurd (ground (arith, l 0 h, first))
    inner_found height fuel id (at r) e l t h first ih =
        let (leaf, i, e', s) = ih r l.0 l.1 in
        (leaf, i, rw (e, t.1.inner, descend) e', inner-IsSmallest height id r _ t l s)

    -- In a tree whose root has a key that is not below the one looked for, first of all its own first
    -- key, the descent ends in a leaf, at the smallest key of the tree that is not below it: every
    -- key of the tree is below the key looked for or not below the key found.
    pub descend_lem :
        (height fuel id : ℕ)
        → height < fuel
        → IsTree height id
        → 0 < (retrieve id).keys_count
        → key_less v (get_key v (retrieve id) 0) key ≡ false
        → Descended fuel height id
    descend_lem height zero id h t some_there first = absurd (omega arith)
    descend_lem zero (suc fuel) id h t some_there first =
        leaf_found fuel id (find_in_node v (retrieve id) key) refl
          (find_in_node_lem v (retrieve id) key t.0.descending) t some_there first
    descend_lem (suc height) (suc fuel) id h t some_there first =
        inner_found height fuel id (find_in_node v (retrieve id) key) refl
          (find_in_node_lem v (retrieve id) key t.0.descending) t some_there first
          (λ i hi at_i.
            descend_lem height fuel (node_id_of_key v (retrieve id) i) (omega arith)
              (t.1.child i hi) (t.1.filled i hi) (rw (t.1.first i hi) at_i))

    -- The answer is `false` for the sentinel itself, at the first place of its leaf.
    abbrev pub IsAnswer : Key V → Bool → ℕ → ℕ → Type 0
    IsAnswer sentinel there leaf i =
        ((there ≡ false)
          × (i ≡ 0)
          × (compare_with v sentinel (get_key v (retrieve leaf) i) ≡ level))
        ⊎ ((there ≡ true)
            × ((i ≢ 0) ⊎ (compare_with v sentinel (get_key v (retrieve leaf) i) ≢ level)))

    -- Another key stands first.
    past_sentinel-other :
        (sentinel : Key V) (leaf i : ℕ)
        → (past_sentinel v retrieve sentinel (leaf, i)).0 ≡ true
        → compare_with v sentinel (get_key v (retrieve leaf) 0) ≢ level
        → IsAnswer sentinel (past_sentinel v retrieve sentinel (leaf, i)).0 leaf i
    past_sentinel-other sentinel leaf i e other = elim (ℕ_discrete i 0) [
      | yes zeroth ↦ inr (e, inr (rw zeroth other))
      | no later ↦ inr (e, inl later)
    ]

    past_sentinel-cases :
        (sentinel : Key V) (leaf i : ℕ)
        → IsAnswer sentinel (past_sentinel v retrieve sentinel (leaf, i)).0 leaf i
    unfolding past_sentinel compare_key
    past_sentinel-cases sentinel leaf i =
        elim (Sign-cases (compare_with v sentinel (get_key v (retrieve leaf) 0))) [
          | inl e ↦ past_sentinel-other sentinel leaf i (ground (arith, e)) (λ q. cc)
          | inr (inr e) ↦ past_sentinel-other sentinel leaf i (ground (arith, e)) (λ q. cc)
          | inr (inl e) ↦ elim (ℕ_discrete i 0) [
            | yes zeroth ↦ inl (ground (arith, e), zeroth, rw zeroth e)
            | no later ↦ inr (ground (arith, e), inl later)
          ]
        ]

    find_key-eq :
        (sentinel : Key V) (fuel root leaf i : ℕ)
        → descend v retrieve fuel root key ≡ some (leaf, i)
        → find_key v retrieve fuel root sentinel key
          ≡ some ((past_sentinel v retrieve sentinel (leaf, i)).0, leaf, i)
    unfolding find_key past_sentinel
    find_key-eq sentinel fuel root leaf i e = rw (e, find_key) refl

    -- `BTree::FindBiggerOrEqual` in a tree whose root has a first key that is not below the one looked
    -- for returns, with as much fuel as the tree has levels: it tells a place of a leaf, where the
    -- smallest key of the tree stands that is not below the one looked for, so that every key of the
    -- tree is below the key looked for or not below the key found. The result is `false`
    -- where that key is level with the sentinel and stands first in its leaf, and `true` otherwise.
    pub find_key_lem :
        (height fuel root : ℕ) (sentinel : Key V)
        → height < fuel
        → IsTree height root
        → 0 < (retrieve root).keys_count
        → key_less v (get_key v (retrieve root) 0) key ≡ false
        → (there : Bool) × (leaf : ℕ) × (i : ℕ) × (find_key v retrieve fuel root sentinel key
            ≡ some (there, leaf, i))
          × IsSmallest height root (get_key v (retrieve leaf) i)
          × IsAnswer sentinel there leaf i
    find_key_lem height fuel root sentinel h t some_there first =
        let (leaf, i, e, s) = descend_lem height fuel root h t some_there first in
        (
          (past_sentinel v retrieve sentinel (leaf, i)).0,
          leaf,
          i,
          find_key-eq sentinel fuel root leaf i e,
          s,
          past_sentinel-cases sentinel leaf i,
        )
