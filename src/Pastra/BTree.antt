-- ===== src/Pastra/BTree.antt =====
-- The nodes of the field indexes: IBTreeNode of dbs/pastra/ps_btree_index.h and .cpp, T_BTreeKey and
-- DBS_BTreeNode of dbs/pastra/ps_btree_fields.h, and the descent of BTree::FindBiggerOrEqual. The
-- arrays of a node are lists with one cell for each entry; keys stand in descending order.
pub mod Arrays
pub mod Keys
pub mod Search
pub mod Written
pub mod Insert
pub mod Remove
pub mod Descent
pub mod Parts
pub mod Copy
pub mod Entries
pub mod Split
pub mod Join
pub mod Halves
pub mod Capacity
pub mod Front
mod Tests
use whais.Prelude.{
  ℕ, zero, suc, ◌+◌, ◌-◌, ◌*◌, ◌/◌, ◌%◌, ◌^◌, ◌≡◌, Bool, true, false, not, ◌&&◌, Option, none, some,
  List, [], ltb, leb, ◌==◌, if◌then◌else◌, get_or, set,
}
use whais.Utils.Sort.{Less}

-- The sign of a comparison.
pub data Sign : Type 0 where
  minus : Sign
  level : Sign
  plus : Sign

-- The values of a field type: their `<` and `==`, and the null value below all others.
pub record Values (V : Type 0) : Type 0 where
  pub order : Less V
  pub equal : V → V → Bool
  pub equal_iff : (a b : V) → equal a b ≡ (not (order.less a b) && not (order.less b a))
  pub null : V
  pub is_null : V → Bool
  pub null_is_null : is_null null ≡ true
  pub is_null_only : (a : V) → is_null a ≡ true → a ≡ null
  pub null_below : (a : V) → is_null a ≡ false → order.less null a ≡ true

pub record Key (V : Type 0) : Type 0 where
  pub value : V
  pub row : ℕ

pub record BTreeNode (V : Type 0) : Type 0 where
  pub leaf : Bool
  pub keys_count : ℕ
  pub null_keys_count : ℕ
  pub rows : List ℕ
  pub child_nodes : List ℕ
  pub values : List V

-- `make_array_room` on fuel; `last_pos` is a 32-bit word.
unfoldable pub shift_up : {A : Type 0} → A → ℕ → ℕ → ℕ → ℕ → List A → Option (List A)
shift_up d zero last_pos from_pos elem_size array = none
shift_up d (suc fuel) last_pos from_pos elem_size array =
    let rest =
      shift_up d fuel ((last_pos + (2 ^ 32 - 1)) % 2 ^ 32) from_pos elem_size
        (set array (last_pos + elem_size) (get_or array last_pos d)) in
    if leb from_pos last_pos then rest else some array

unfoldable pub make_array_room : {A : Type 0} → A → ℕ → ℕ → ℕ → ℕ → List A → Option (List A)
unfolding shift_up
make_array_room d fuel last_index from_index elem_size array =
    let last_pos = last_index * elem_size + elem_size - 1 in
    shift_up d fuel last_pos (from_index * elem_size) elem_size array

-- `remove_array_elemes`, with as many rounds as there are cells to move.
unfoldable pub shift_down : {A : Type 0} → A → ℕ → ℕ → ℕ → List A → List A
shift_down d zero from_pos elem_size array = array
shift_down d (suc left) from_pos elem_size array =
    shift_down d left (from_pos + 1) elem_size
      (set array from_pos (get_or array (from_pos + elem_size) d))

unfoldable pub remove_array_elemes : {A : Type 0} → A → ℕ → ℕ → ℕ → List A → List A
unfolding shift_down
remove_array_elemes d last_index from_index elem_size array =
    let last_pos = last_index * elem_size + elem_size - 1 in
    let from_pos = from_index * elem_size in
    shift_down d (last_pos + 1 - (from_pos + elem_size)) from_pos elem_size array

-- The search of `IBTreeNode::FindBiggerOrEqual` between `top` and `bottom`, on fuel.
unfoldable pub bisect : ℕ → (ℕ → Sign) → ℕ → ℕ → Option (ℕ × ℕ)
bisect zero compare top bottom = none
bisect (suc fuel) compare top bottom =
    let median = (bottom + top) / 2 in
    let upper = bisect fuel compare median bottom in
    let lower = bisect fuel compare top median in
    if ltb (top + 1) bottom
    then elim (compare median) [ minus ↦ upper | level ↦ lower | plus ↦ lower ]
    else some (top, bottom)

-- What a search in a node tells: `false`, an index, or no end.
pub data Found : Type 0 where
  missing : Found
  at : ℕ → Found
  endless : Found

unfoldable pub chosen : (ℕ → Sign) → Option (ℕ × ℕ) → Found
chosen compare none = endless
chosen compare (some (top, bottom)) = elim (compare bottom) [
  | plus ↦ at top
  | level ↦ at bottom
  | minus ↦ at bottom
]

unfoldable pub find_bigger_or_equal : (ℕ → Sign) → ℕ → Found
unfolding bisect chosen
find_bigger_or_equal compare keys_count = if keys_count == 0 then missing else elim (compare 0) [
  | plus ↦ missing
  | level ↦ chosen compare (bisect keys_count compare 0 (keys_count - 1))
  | minus ↦ chosen compare (bisect keys_count compare 0 (keys_count - 1))
]

module _ {V : Type 0} (v : Values V) where
  open v use {order, equal, null, is_null}

  -- `T_BTreeKey::CompareWith`.
  unfoldable pub compare_with : Key V → Key V → Sign
  compare_with a b =
      if order.less a.value b.value
      then minus
      else if equal a.value b.value
      then (if ltb a.row b.row then minus else if a.row == b.row then level else plus)
      else plus

  -- The last `null_keys_count` keys are null, and their cells for values are not read.
  unfoldable pub get_key : BTreeNode V → ℕ → Key V
  get_key n i = record {
    value = if leb (n.keys_count - n.null_keys_count) i then null else get_or n.values i null;
    row = get_or n.rows i 0;
  }

  unfoldable pub set_key : BTreeNode V → Key V → ℕ → BTreeNode V
  set_key n key i = record n {
    values =
        if ltb i (n.keys_count - n.null_keys_count) then set n.values i key.value else n.values;
    rows = set n.rows i key.row;
  }

  unfoldable pub node_id_of_key : BTreeNode V → ℕ → ℕ
  node_id_of_key n i = get_or n.child_nodes i 0

  unfoldable pub set_node_of_key : BTreeNode V → ℕ → ℕ → BTreeNode V
  set_node_of_key n i child = record n { child_nodes = set n.child_nodes i child }

  unfoldable pub compare_key : BTreeNode V → Key V → ℕ → Sign
  unfolding compare_with get_key
  compare_key n key i = compare_with key (get_key n i)

  unfoldable pub find_in_node : BTreeNode V → Key V → Found
  unfolding compare_key find_bigger_or_equal
  find_in_node n key = find_bigger_or_equal (compare_key n key) n.keys_count

  -- Room for an entry in each of the arrays of the node. The fuel, here and in what follows, is that
  -- of each of the loops that make the room.
  unfoldable pub make_room : ℕ → ℕ → BTreeNode V → Option (BTreeNode V)
  make_room fuel i n =
      let last = n.keys_count - 1 in
      elim (make_array_room 0 fuel last i 1 n.rows) [
        | none ↦ none
        | some rows ↦
            elim (if n.leaf
              then some n.child_nodes
              else make_array_room 0 fuel last i 1 n.child_nodes) [
                | none ↦ none
                | some child_nodes ↦ elim (make_array_room null fuel last i 1 n.values) [
                  | none ↦ none
                  | some values ↦
                      some record n { rows = rows; child_nodes = child_nodes; values = values }
                ]
              ]
      ]

  unfoldable pub count_key : Key V → BTreeNode V → BTreeNode V
  count_key key n = record n {
    keys_count = (n.keys_count + 1) % 2 ^ 16;
    null_keys_count =
        if is_null key.value then (n.null_keys_count + 1) % 2 ^ 16 else n.null_keys_count;
  }

  -- `DBS_BTreeNode::InsertKey` at the place that the search gave.
  unfoldable pub insert_at : ℕ → BTreeNode V → Key V → Found → Option (BTreeNode V × ℕ)
  unfolding count_key set_key
  insert_at fuel n key endless = none
  insert_at fuel n key missing = elim (make_room fuel 0 n) [
    | none ↦ none
    | some n' ↦ some (set_key (count_key key n') key 0, 0)
  ]
  insert_at fuel n key (at i) = elim (make_room fuel (i + 1) n) [
    | none ↦ none
    | some n' ↦ some (set_key (count_key key n') key (i + 1), i + 1)
  ]

  unfoldable pub insert_key : ℕ → BTreeNode V → Key V → Option (BTreeNode V × ℕ)
  unfolding insert_at
  insert_key fuel n key =
      if n.keys_count == 0
      then some (
        set_key
            (record n {
              keys_count = 1;
              null_keys_count = if is_null key.value then 1 else n.null_keys_count;
            })
            key 0,
        0,
      )
      else insert_at fuel n key (find_in_node n key)

  -- `DBS_BTreeNode::RemoveKey`.
  unfoldable pub remove_key : BTreeNode V → ℕ → BTreeNode V
  remove_key n i =
      let last = n.keys_count - 1 in
      record n {
        rows = remove_array_elemes 0 last i 1 n.rows;
        child_nodes =
            if n.leaf then n.child_nodes else remove_array_elemes 0 last i 1 n.child_nodes;
        values = remove_array_elemes null last i 1 n.values;
        null_keys_count =
            if leb (n.keys_count - n.null_keys_count) i
            then n.null_keys_count - 1
            else n.null_keys_count;
        keys_count = n.keys_count - 1;
      }

  -- `BTree::FindBiggerOrEqual` below a node, on fuel; `none` is a search without a result.
  unfoldable pub descend : (ℕ → BTreeNode V) → ℕ → ℕ → Key V → Option (ℕ × ℕ)
  descend retrieve zero node_id key = none
  descend retrieve (suc fuel) node_id key =
      let node = retrieve node_id in
      elim (find_in_node node key) [
        | missing ↦ none
        | endless ↦ none
        | at i ↦ elim node.leaf [
          | true ↦ some (node_id, i)
          | false ↦ descend retrieve fuel (node_id_of_key node i) key
        ]
      ]

  -- The place found is no result if it is that of the sentinel.
  unfoldable pub past_sentinel : (ℕ → BTreeNode V) → Key V → ℕ × ℕ → Bool × ℕ × ℕ
  past_sentinel retrieve sentinel (node_id, i) =
      let first = compare_key (retrieve node_id) sentinel 0 in
      let is_sentinel = elim first as (λ x. Bool) [ level ↦ true | minus ↦ false | plus ↦ false ] in
      (not ((i == 0) && is_sentinel), node_id, i)

  -- `BTree::FindBiggerOrEqual`.
  unfoldable pub find_key : (ℕ → BTreeNode V) → ℕ → ℕ → Key V → Key V → Option (Bool × ℕ × ℕ)
  find_key retrieve fuel root sentinel key = elim (descend retrieve fuel root key) [
    | none ↦ none
    | some place ↦ some (past_sentinel retrieve sentinel place)
  ]

-- `NeedsJoining` and `NeedsSpliting`, on 32-bit words.
unfoldable pub needs_joining : ℕ → ℕ → Bool
needs_joining keys_count keys_per_node =
    ltb keys_count ((keys_per_node / 3 + (2 ^ 32 - 1)) % 2 ^ 32)

unfoldable pub needs_spliting : ℕ → ℕ → Bool
needs_spliting keys_count keys_per_node =
    leb ((2 * keys_per_node / 3 + (2 ^ 32 - 1)) % 2 ^ 32) keys_count
