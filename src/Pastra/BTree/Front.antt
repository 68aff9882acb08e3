-- ===== src/Pastra/BTree/Front.antt =====
-- An insertion in front of the first key: the room is asked for from place 0, and the loop that makes
-- it never ends.
use native.Mathlib.Decide.{dec_lt}
use whais.Prelude.{
  ℕ, zero, suc, ◌+◌, ◌-◌, ◌*◌, ◌%◌, ◌^◌, ◌<◌, ◌≡◌, refl, true, false, none, List, arith, ◌==◌,
  get_or, set, leb,
}
use whais.Utils.Sort.Ranges.{less_trans}
use whais.Pastra.BTree.{
  Values, Key, BTreeNode, Found, missing, at, endless, shift_up, make_array_room, get_key,
  find_in_node, make_room, insert_at, insert_key,
}
use whais.Pastra.BTree.Keys.{key_less, key_order}
use whais.Pastra.BTree.Search.{IsDescending, IsLookup, find_in_node_lem}

-- Whatever the fuel.
pub shift_up-first :
    {A : Type 0} (d : A) (fuel last_pos elem_size : ℕ) (array : List A)
    → shift_up d fuel last_pos 0 elem_size array ≡ none
unfolding shift_up
shift_up-first d zero last_pos elem_size array = refl
shift_up-first d (suc fuel) last_pos elem_size array =
    let always : leb 0 last_pos ≡ true = ground arith in
    rw always (
      shift_up-first d fuel ((last_pos + (2 ^ 32 - 1)) % 2 ^ 32) elem_size
        (set array (last_pos + elem_size) (get_or array last_pos d)))

make_array_room-first :
    {A : Type 0} (d : A) (fuel last_index elem_size : ℕ) (array : List A)
    → make_array_room d fuel last_index 0 elem_size array ≡ none
unfolding make_array_room
make_array_room-first d fuel last_index elem_size array =
    let e : 0 * elem_size ≡ 0 = omega arith in
    rw e (shift_up-first d fuel (last_index * elem_size + elem_size - 1) elem_size array)

module _ {V : Type 0} (v : Values V) (fuel : ℕ) (n : BTreeNode V) (key : Key V) where
  make_room-first : make_room v fuel 0 n ≡ none
  unfolding make_room
  make_room-first = rw (make_array_room-first 0 fuel (n.keys_count - 1) 1 n.rows, make_room) refl

  insert_key-missing :
      find_in_node v n key ≡ missing → 0 < n.keys_count → insert_key v fuel n key ≡ none
  unfolding insert_key insert_at
  insert_key-missing e h =
      let some_there : (n.keys_count == 0) ≡ false = ground arith in
      rw (some_there, e) (rw (make_room-first, insert_at) refl)

  front_found :
      (f : Found)
      → find_in_node v n key ≡ f
      → IsLookup v n key f
      → IsDescending v n
      → 0 < n.keys_count
      → key_less v (get_key v n 0) key ≡ true
      → insert_key v fuel n key ≡ none
  front_found missing e l desc h first = insert_key-missing e h
  front_found endless e l desc h first = absurd l
  front_found (at i) e (inside, not_below, below) desc h first =
      let lower : key_less v (get_key v n i) key ≡ true = elim (dec_lt 0 i) [
        | yes later ↦ less_trans (key_order v) _ _ _ (desc 0 i later inside) first
        | no here ↦ let zeroth : i ≡ 0 = omega arith in rw zeroth first
      ] in
      absurd (ground (arith, lower, not_below))

  -- `InsertKey` of a key above every key of a node that has keys does not return: whatever the fuel of
  -- the loops that make room, it is used up.
  pub insert_key-front :
      IsDescending v n
      → 0 < n.keys_count
      → key_less v (get_key v n 0) key ≡ true
      → insert_key v fuel n key ≡ none
  insert_key-front desc h first =
      front_found (find_in_node v n key) refl (find_in_node_lem v n key desc) desc h first
