-- ===== src/Pastra/BTree/Insert.antt =====
-- `DBS_BTreeNode::InsertKey`: the key goes in front of the first key below it, its entry is written
-- behind the room that was made, and the null keys stay the last ones.
use native.Mathlib.Decide.{dec_lt}
use whais.Prelude.{ℕ, ◌+◌, ◌-◌, ◌≤◌, ◌<◌, ◌≡◌, ◌≢◌, refl, true, false, some, arith, get_or, ◌==◌}
use whais.Pastra.BTree.{
  Values, Key, BTreeNode, Found, missing, at, endless, get_key, find_in_node, make_room, insert_at,
  insert_key,
}
use whais.Utils.Sort.Ranges.{less_trans}
use whais.Pastra.BTree.Keys.{key_less, key_order, key_less_asymm, key_less-null}
use whais.Pastra.BTree.Search.{IsLookup, find_in_node_lem}
use whais.Pastra.BTree.Written.{
  inserted, HasRoom, IsNode, make_room_lem, written, written-keys_count, written-key, written-node,
  written-IsNode,
}

module _ {V : Type 0} (v : Values V) where
  open v use {null, is_null, null_is_null}

  -- The node after an insertion: the key stands at `p`, every other entry where it was or one place
  -- further, and the child of an inner node with its key.
  pub record Inserted (n : BTreeNode V) (key : Key V) (n' : BTreeNode V) (p : ℕ) : Type 0 where
    pub place : p ≤ n.keys_count
    pub count : n'.keys_count ≡ n.keys_count + 1
    pub node : IsNode v n'
    pub keys : (j : ℕ) → j ≤ n.keys_count → get_key v n' j ≡ inserted p key (get_key v n) j
    pub nodes :
        (j : ℕ)
        → n.leaf ≡ false
        → j ≢ p
        → j ≤ n.keys_count
        → get_or n'.child_nodes j 0 ≡ inserted p 0 (λ i. get_or n.child_nodes i 0) j

  module _ (fuel : ℕ) (n : BTreeNode V) (key : Key V) (w : IsNode v n) (h : HasRoom v n)
      (present : 0 < n.keys_count) (enough : n.keys_count ≤ fuel)
      (not_first : key_less v (get_key v n 0) key ≡ false)
      (new : (i : ℕ)
        → i < n.keys_count
        → key_less v (get_key v n i) key ≡ false
        → key_less v key (get_key v n i) ≡ true) where
    abbrev Outcome : Type 0
    Outcome =
        (n' : BTreeNode V) × (p : ℕ) × (insert_key v fuel n key ≡ some (n', p))
        × Inserted n key n' p

    -- A null key goes behind the others, any other in front of the null keys.
    insert_after_nulls :
        (i : ℕ)
        → ((j : ℕ) → i < j → j < n.keys_count → key_less v (get_key v n j) key ≡ true)
        → is_null key.value ≡ true
        → n.keys_count - n.null_keys_count ≤ i + 1
    unfolding get_key
    insert_after_nulls i below e = elim (dec_lt (i + 1) (n.keys_count - n.null_keys_count)) [
      | no h' ↦ omega arith
      | yes h' ↦
          let k = get_key v n (i + 1) in
          let stored : is_null k.value ≡ false = ground (arith, w.stored (i + 1)) in
          let wrong = key_less_asymm v key k (key_less-null v key k e stored) in
          absurd (ground (arith, wrong, below (i + 1)))
    ]

    insert_before_nulls :
        (i : ℕ)
        → i < n.keys_count
        → key_less v (get_key v n i) key ≡ false
        → is_null key.value ≡ false
        → i + 1 ≤ n.keys_count - n.null_keys_count
    unfolding get_key
    insert_before_nulls i inside not_below e = elim (dec_lt i (n.keys_count - n.null_keys_count)) [
      | yes h' ↦ omega arith
      | no h' ↦
          let k = get_key v n i in
          let empty : is_null k.value ≡ true = ground (arith, null_is_null) in
          absurd (ground (arith, key_less-null v k key empty e, not_below))
    ]

    insert_above :
        (i : ℕ)
        → i < n.keys_count
        → key_less v (get_key v n i) key ≡ false
        → (j : ℕ) → j < i + 1
        → key_less v key (get_key v n j) ≡ true
    insert_above i inside not_below j hj = elim (dec_lt j i) [
      | yes earlier ↦
          less_trans (key_order v) key (get_key v n i) (get_key v n j) (new i inside not_below)
            (w.descending j i earlier inside)
      | no same ↦ let e : j ≡ i = omega arith in rw e (new i inside not_below)
    ]

    insert_key-eq :
        (i : ℕ) (n₁ : BTreeNode V)
        → find_in_node v n key ≡ at i
        → make_room v fuel (i + 1) n ≡ some n₁
        → insert_key v fuel n key ≡ some (written v n₁ key (i + 1), i + 1)
    unfolding insert_key insert_at
    insert_key-eq i n₁ e e₁ =
        let some_there : (n.keys_count == 0) ≡ false = ground arith in
        rw (some_there, e) (rw (e₁, insert_at) refl)

    insert_found : (f : Found) → find_in_node v n key ≡ f → IsLookup v n key f → Outcome
    insert_found endless e l = absurd l
    insert_found missing e l = absurd (ground (arith, l 0 present, not_first))
    insert_found (at i) e (inside, not_below, below) =
        let (n₁, e₁, r) = make_room_lem v fuel (i + 1) n h (omega arith) (omega arith) enough in
        let after = insert_after_nulls i below in
        let before = insert_before_nulls i inside not_below in
        let above = insert_above i inside not_below in
        let below' : (j : ℕ)
            → i + 1 ≤ j
            → j < n.keys_count
            → key_less v (get_key v n j) key ≡ true =
          λ j hj hn. below j (omega arith) hn in
        (
          written v n₁ key (i + 1),
          i + 1,
          insert_key-eq i n₁ e e₁,
          record {
            place = omega arith;
            count = written-keys_count v key h w r (omega arith) after before;
            node = written-IsNode v key h w r (omega arith) after before above below';
            keys = written-key v key h w r (omega arith) after before;
            nodes = written-node v key h w r (omega arith) after before;
          },
        )

    -- `InsertKey` of a new key, not above the first key of a node that has keys and room for one more,
    -- returns, with fuel for the number of its keys: the key stands at the place told, the keys still descend with the null ones last, and
    -- every other key, and the child of every other key of an inner node, keeps its order.
    pub insert_key_lem : Outcome
    insert_key_lem =
        insert_found (find_in_node v n key) refl (find_in_node_lem v n key w.descending)
