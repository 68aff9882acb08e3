-- ===== src/Pastra/VarStorage/Release.antt =====
-- dbs/pastra/ps_varstorage.cpp: records are added, referred to, and given back to the free list.
use whais.Prelude.{
  ℕ, zero, suc, ◌+◌, ◌-◌, ◌%◌, ◌^◌, true, false, not, ◌&&◌, List, length, ltb, ◌==◌, if◌then◌else◌,
}
use whais.Pastra.VarStorage.{
  VariableSizeStore, Answer, done, failed, stuck, entry_at, entries_count, change, next_entry,
  is_deleted, set_next_entry, set_prev_entry, mark_as_deleted, mark_as_first_entry,
  last_chained_entry,
}
use whais.Pastra.VarStorage.Allocate.{add_first_entry, update_record}

-- The end of `AddToFreeList`: the entry goes to the front of the list.
unfoldable pub add_at_front : ℕ → VariableSizeStore → VariableSizeStore
add_at_front id s =
    let first = s.first_free_entry in
    let s = (if not (first == last_chained_entry) then change first (set_prev_entry id) s else s) in
    let s = change id (λ e. set_next_entry first (set_prev_entry 0 e)) s in
    change 0 (set_next_entry id) (record s { first_free_entry = id })

unfoldable pub add_to_free_list : ℕ → VariableSizeStore → VariableSizeStore
unfolding add_at_front
add_to_free_list id old =
    let s = change id (λ e. mark_as_first_entry false (mark_as_deleted true e)) old in
    let prev = (entry_at s (id + 1)).prev_word in
    let before = change prev (set_next_entry id) (
      change id (λ e. set_next_entry (id + 1) (set_prev_entry prev e))
        (change (id + 1) (set_prev_entry id) s)) in
    let next = next_entry (entry_at s (id - 1)) in
    let behind =
      change id (λ e. set_prev_entry (id - 1) (set_next_entry next e))
        (change (id - 1) (set_next_entry id) s) in
    if ltb (id + 1) (entries_count s)
    then if is_deleted (entry_at s (id + 1))
      then if s.first_free_entry == id + 1 then record before { first_free_entry = id } else before
      else add_at_front id s
    else if ltb 1 id && is_deleted (entry_at s (id - 1))
    then if next == last_chained_entry then behind else change next (set_prev_entry id) behind
    else add_at_front id s

unfoldable pub remove_record : ℕ → ℕ → VariableSizeStore → Answer VariableSizeStore
unfolding add_to_free_list
remove_record zero id s = stuck
remove_record (suc fuel) id s =
    let rest = remove_record fuel (next_entry (entry_at s id)) (add_to_free_list id s) in
    if id == last_chained_entry then done s else rest

unfoldable pub decrement_record_ref : ℕ → ℕ → VariableSizeStore → Answer VariableSizeStore
unfolding remove_record
decrement_record_ref fuel id s =
    let ref_count = ((entry_at s id).prev_word + (2 ^ 64 - 1)) % 2 ^ 64 in
    let s' = change id (set_prev_entry ref_count) s in
    let removed = remove_record fuel id s' in if ref_count == 0 then removed else done s'

-- `AddRecord` from a buffer: the first entry, and the store.
unfoldable pub add_record : ℕ → List ℕ → VariableSizeStore → Answer (ℕ × VariableSizeStore)
unfolding add_first_entry update_record
add_record fuel buffer s =
    let (id, s1) = add_first_entry s in
    let updated : Answer (ℕ × VariableSizeStore) = elim (update_record fuel s1 id 0 buffer) [
      | done s2 ↦ done (id, s2)
      | failed ↦ failed
      | stuck ↦ stuck
    ] in
    if not (id == 0) && ltb 0 (length buffer) then updated else done (id, s1)
