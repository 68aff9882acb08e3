-- ===== src/Pastra/BTree/Capacity.antt =====
-- `NeedsSpliting` and `NeedsJoining` with `Split` and `Join`: the keys of two nodes that are joined
-- fit into one, and the halves of a node that is split are not to be joined at once.
use whais.Prelude.{ℕ, ◌+◌, ◌-◌, ◌/◌, ◌≤◌, ◌<◌, ◌^◌, ◌≡◌, ◌⊎◌, true, false, arith}
use whais.Pastra.BTree.{Values, BTreeNode, get_key, needs_joining, needs_spliting}
use whais.Pastra.BTree.Keys.{key_less}
use whais.Pastra.BTree.Written.{IsNode}
use whais.Pastra.BTree.Parts.{split_node, join_node}
use whais.Pastra.BTree.Entries.{Holds}
use whais.Pastra.BTree.Split.{split_node_lem}
use whais.Pastra.BTree.Join.{Joined, join_node_lem}

counts-fit :
    (keys_per_node count grown : ℕ)
    → 3 ≤ keys_per_node
    → keys_per_node < 2 ^ 30
    → needs_joining count keys_per_node ≡ true
    → needs_spliting grown keys_per_node ≡ false
    → count + (grown + 1) + 3 ≤ keys_per_node
unfolding needs_joining needs_spliting
counts-fit k count grown h small joining splitting = ground arith

half-needs_joining :
    (keys_per_node count half : ℕ)
    → 3 ≤ keys_per_node
    → keys_per_node < 2 ^ 30
    → needs_spliting count keys_per_node ≡ true
    → count / 2 ≤ half
    → needs_joining half keys_per_node ≡ false
unfolding needs_joining needs_spliting
half-needs_joining k count half h small splitting enough = ground arith

module _ {V : Type 0} (v : Values V) (keys_per_node : ℕ) (some_keys : 3 ≤ keys_per_node) where
  -- `Join` of a node that needs joining to a neighbour of its kind whose keys are above its own, in
  -- nodes for 3 to 65535 keys, where the neighbour has at most one key more than a number at which a
  -- node does not need splitting, and has no null key or the node has no other: the neighbour has
  -- all the keys and children, its own ones first, is well formed, and is three keys below the
  -- number that it has room for, at least.
  pub join_node-fits :
      (n taker : BTreeNode V) (grown : ℕ)
      → keys_per_node < 2 ^ 16
      → IsNode v n
      → IsNode v taker
      → n.leaf ≡ taker.leaf
      → Holds v keys_per_node taker
      → ((taker.null_keys_count ≡ 0) ⊎ (n.keys_count ≡ n.null_keys_count))
      → ((i j : ℕ)
          → i < taker.keys_count
          → j < n.keys_count
          → key_less v (get_key v n j) (get_key v taker i) ≡ true)
      → needs_joining n.keys_count keys_per_node ≡ true
      → needs_spliting grown keys_per_node ≡ false
      → taker.keys_count ≤ grown + 1
      → Joined v n taker (join_node v n taker)
        × ((join_node v n taker).keys_count + 3 ≤ keys_per_node)
  join_node-fits n taker grown small w w' same_kind room nulls above joining splitting at_most =
      let fits =
        counts-fit keys_per_node n.keys_count grown some_keys (omega arith) joining splitting in
      let joined =
        join_node_lem v n taker w w' same_kind (omega (arith, fits))
          (record {
            rows = omega (arith, fits, room.rows);
            values = omega (arith, fits, room.values);
            child_nodes = λ inner. omega (arith, fits, room.child_nodes inner);
          })
          nulls above in
      (joined, omega (arith, joined.keys_count, fits))

  -- Neither of the halves that `Split` makes of a node that needs splitting needs joining, where the
  -- node has at most 65535 keys, a node has room for 3 to 2 ^ 30 of them, and the node allocated has
  -- room for the lower half.
  pub split_node-balanced :
      (n allocated : BTreeNode V)
      → keys_per_node < 2 ^ 30
      → IsNode v n
      → n.keys_count < 2 ^ 16
      → Holds v (n.keys_count - n.keys_count / 2) (record allocated { leaf = n.leaf })
      → needs_spliting n.keys_count keys_per_node ≡ true
      → (needs_joining (split_node v n allocated).0.keys_count keys_per_node ≡ false)
        × (needs_joining (split_node v n allocated).1.keys_count keys_per_node ≡ false)
  split_node-balanced n allocated small w few room splitting =
      let (u, l) = split_node_lem v n allocated w few room in
      (
        half-needs_joining keys_per_node n.keys_count _ some_keys small splitting
            (omega (arith, u.keys_count)),
        half-needs_joining keys_per_node n.keys_count _ some_keys small splitting
            (omega (arith, l.keys_count)),
      )
