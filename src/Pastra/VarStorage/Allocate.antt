-- ===== src/Pastra/VarStorage/Allocate.antt =====
-- dbs/pastra/ps_varstorage.cpp: the allocation of entries, and the updates that need it.
use whais.Prelude.{
  ℕ, zero, suc, ◌+◌, ◌-◌, ◌%◌, ◌^◌, true, false, not, List, [], ◌∷◌, ◌++◌, drop, length, ltb, ◌==◌,
  if◌then◌else◌,
}
use whais.Pastra.VarStorage.{
  VariableSizeStore, Answer, done, failed, stuck, new_entry, entry_at, entries_count, entry_size,
  entry_write, change, next_entry, is_deleted, set_next_entry, set_prev_entry, mark_as_deleted,
  mark_as_first_entry, last_chained_entry, last_deleted_entry,
}

unfoldable pub extract_from_free_list : ℕ → VariableSizeStore → VariableSizeStore
extract_from_free_list id s =
    let prev = (entry_at s id).prev_word in
    let next = next_entry (entry_at s id) in
    let s = change id (λ e. set_next_entry 0 (set_prev_entry 0 (mark_as_deleted false e))) s in
    let s = change prev (set_next_entry next) s in
    let s = if id == s.first_free_entry then record s { first_free_entry = next } else s in
    if next == last_deleted_entry then s else change next (set_prev_entry prev) s

-- `ExtentFreeList`: a new entry, which is free, behind all others.
unfoldable pub extent_free_list : VariableSizeStore → ℕ × VariableSizeStore
extent_free_list s =
    let e =
      mark_as_first_entry false
        (set_next_entry last_deleted_entry (set_prev_entry 0 (mark_as_deleted true new_entry))) in
    let first = entries_count s in
    let s = record s { entries = s.entries ++ e ∷ []; first_free_entry = first } in
    (first, change 0 (set_next_entry first) s)

-- The free neighbour of the previous entry, or else the first free entry.
unfoldable pub pick_free : ℕ → VariableSizeStore → ℕ
pick_free prev s =
    if ltb (prev + 1) (entries_count s)
    then if is_deleted (entry_at s (prev + 1)) then prev + 1 else s.first_free_entry
    else if ltb 1 prev
    then if is_deleted (entry_at s (prev - 1)) then prev - 1 else s.first_free_entry
    else s.first_free_entry

unfoldable pub allocate_entry : ℕ → VariableSizeStore → ℕ × VariableSizeStore
unfolding extract_from_free_list extent_free_list pick_free
allocate_entry prev s =
    let found = pick_free prev s in
    let (found, s) = (if found == last_deleted_entry then extent_free_list s else (found, s)) in
    let s = extract_from_free_list found s in
    let prev_next = next_entry (entry_at s prev) in
    let linked =
      change found
        (λ e. set_next_entry prev_next (mark_as_first_entry false (set_prev_entry prev e)))
        (change prev (set_next_entry found) s) in
    let next = next_entry (entry_at linked found) in
    let first =
      change found
        (λ e. set_next_entry last_chained_entry (set_prev_entry 0 (mark_as_first_entry true e)))
        s in
    if ltb 0 prev
    then (
      found,
      if next == last_chained_entry then linked else change next (set_prev_entry found) linked,
    )
    else (found, first)

-- The loop of `UpdateRecord` that looks for the first byte: the entry before, the entry, the place.
unfoldable pub find_for_update : ℕ → VariableSizeStore → ℕ → ℕ → ℕ → Answer (ℕ × (ℕ × ℕ))
find_for_update zero s prev id offset = stuck
find_for_update (suc fuel) s prev id offset =
    let next = find_for_update fuel s id (next_entry (entry_at s id)) (offset - entry_size) in
    if id == last_chained_entry
    then if not (offset == 0) then failed else done (prev, (id, offset))
    else if ltb offset entry_size
    then done (prev, (id, offset))
    else next

-- The loop that copies the bytes in, and adds entries where the chain ends.
unfoldable pub copy_in : ℕ → VariableSizeStore → ℕ → ℕ → ℕ → List ℕ → Answer VariableSizeStore
unfolding allocate_entry entry_write
copy_in zero s prev id offset buffer = stuck
copy_in (suc fuel) s prev id offset buffer =
    let (id, s1) = (if id == last_chained_entry then allocate_entry prev s else (id, s)) in
    let (count, e) = entry_write offset buffer (entry_at s1 id) in
    let s2 = change id (λ old. e) s1 in
    let rest =
      copy_in fuel s2 id (next_entry e) ((offset + count) % entry_size) (drop count buffer) in
    if length buffer == 0 then done s else rest

-- `UpdateRecord` and `AddRecord` from a buffer.
unfoldable pub update_record : ℕ → VariableSizeStore → ℕ → ℕ → List ℕ → Answer VariableSizeStore
unfolding find_for_update copy_in
update_record fuel s record_first_entry offset buffer =
    elim (find_for_update fuel s record_first_entry record_first_entry offset) [
      | done (prev, (id, place)) ↦ copy_in fuel s prev id place buffer
      | failed ↦ failed
      | stuck ↦ stuck
    ]

-- `AddRecord` before the bytes are stored: an entry of its own, with one reference.
unfoldable pub add_first_entry : VariableSizeStore → ℕ × VariableSizeStore
unfolding allocate_entry
add_first_entry s =
    let (id, s) = allocate_entry 0 s in
    (
      id,
      change id
          (λ e. set_prev_entry 1 (
            set_next_entry last_chained_entry (mark_as_first_entry true (mark_as_deleted false e))))
          s,
    )

unfoldable pub increment_record_ref : ℕ → VariableSizeStore → VariableSizeStore
increment_record_ref id s = change id (λ e. set_prev_entry ((e.prev_word + 1) % 2 ^ 64) e) s
