-- ===== src/Pastra/VarStorage.antt =====
-- dbs/pastra/ps_varstorage.h and ps_varstorage.cpp, classes StoreEntry and VariableSizeStore:
-- records of any size as chains of entries of 48 bytes. `entries` are the entries as the block
-- cache shows them: `RetriveItem` with `GetDataForRead` is an entry of the list, and
-- `GetDataForUpdate` a change of it. Assertions are taken as absent.
pub mod Allocate
pub mod Records
pub mod Chains
pub mod Splice
pub mod CopyIn
pub mod Update
pub mod Release
pub mod Items
mod Tests
use whais.Prelude.{
  ℕ, zero, suc, ◌+◌, ◌-◌, ◌*◌, ◌%◌, ◌^◌, bit_and, bit_or, Bool, true, false, not, List, [], ◌∷◌,
  ◌++◌, replicate, get_or, set, take, drop, length, min, ltb, ◌==◌, if◌then◌else◌,
}

-- The two words of an entry are stored in little-endian order; they stand here as numbers.
pub record StoreEntry : Type 0 where
  pub prev_word : ℕ
  pub next_word : ℕ
  pub raw_data : List ℕ

abbrev pub last_chained_entry : ℕ
last_chained_entry = 0x0fff_ffff_ffff_ffff

abbrev pub entry_deleted_mask : ℕ
entry_deleted_mask = 0x8000_0000_0000_0000

abbrev pub first_record_entry : ℕ
first_record_entry = 0x4000_0000_0000_0000

abbrev pub entry_size : ℕ
entry_size = 48

-- `StoreEntry()` fills everything with ones.
abbrev pub new_entry : StoreEntry
new_entry = record {
  prev_word = 2 ^ 64 - 1;
  next_word = 2 ^ 64 - 1;
  raw_data = replicate entry_size 0xff;
}

abbrev pub is_deleted : StoreEntry → Bool
is_deleted e = not (bit_and e.next_word entry_deleted_mask == 0)

abbrev pub is_first_entry : StoreEntry → Bool
is_first_entry e = not (bit_and e.next_word first_record_entry == 0)

-- `NextEntry()`: the mask is `~(ENTRY_DELETED_MASK | FIRST_RECORD_ENTRY)`.
abbrev pub next_entry : StoreEntry → ℕ
next_entry e = bit_and e.next_word 0x3fff_ffff_ffff_ffff

abbrev pub set_next_entry : ℕ → StoreEntry → StoreEntry
set_next_entry content e = record e {
  next_word = bit_or (bit_and e.next_word 0xc000_0000_0000_0000) content;
}

-- `Read(offset, count, buffer)` returns what it stores in the buffer, `Write` the number of bytes
-- that it takes and the entry. The counts are 32-bit words: `UpdateRecord` hands over what such a
-- word keeps of the size.
abbrev pub clip : ℕ → ℕ → ℕ
clip offset count =
    if ltb entry_size ((count + offset) % 2 ^ 32) then entry_size - offset else count

unfoldable pub entry_read : ℕ → ℕ → StoreEntry → List ℕ
entry_read offset count e = take (clip offset count) (drop offset e.raw_data)

unfoldable pub entry_write : ℕ → List ℕ → StoreEntry → ℕ × StoreEntry
entry_write offset buffer e =
    let count = clip offset (length buffer % 2 ^ 32) in
    (
      count,
      record e {
        raw_data = take offset e.raw_data ++ take count buffer ++ drop (offset + count) e.raw_data;
      },
    )

pub record VariableSizeStore : Type 0 where
  pub entries : List StoreEntry
  pub first_free_entry : ℕ

abbrev pub entry_at : VariableSizeStore → ℕ → StoreEntry
entry_at s id = get_or s.entries id new_entry

-- A call returns, throws GENERAL_CONTROL_ERROR, or (in the model alone) runs out of fuel.
pub data Answer (A : Type 0) : Type 0 where
  done : A → Answer A
  failed : Answer A
  stuck : Answer A

-- The loop that looks for the entry with the first byte: the entry and the place in it.
unfoldable pub find_entry : ℕ → VariableSizeStore → ℕ → ℕ → Answer (ℕ × ℕ)
find_entry zero s id offset = stuck
find_entry (suc fuel) s id offset =
    let next = find_entry fuel s (next_entry (entry_at s id)) (offset - entry_size) in
    if id == last_chained_entry
    then failed
    else if ltb offset entry_size
    then done (id, offset)
    else next

-- The loop that copies the bytes out, entry after entry.
unfoldable pub copy_out : ℕ → VariableSizeStore → ℕ → ℕ → ℕ → Answer (List ℕ)
unfolding entry_read
copy_out zero s id offset size = stuck
copy_out (suc fuel) s id offset size =
    let e = entry_at s id in
    let chunk = min size (entry_size - offset) in
    let rest = copy_out fuel s (next_entry e) ((offset + chunk) % entry_size) (size - chunk) in
    if size == 0 then done [] else if id == last_chained_entry then failed else elim rest [
      | done bytes ↦ done (entry_read offset chunk e ++ bytes)
      | failed ↦ failed
      | stuck ↦ stuck
    ]

unfoldable pub get_record : ℕ → VariableSizeStore → ℕ → ℕ → ℕ → Answer (List ℕ)
unfolding find_entry copy_out
get_record fuel s record_first_entry offset size =
    elim (find_entry fuel s record_first_entry offset) [
      | done (id, place) ↦ copy_out fuel s id place size
      | failed ↦ failed
      | stuck ↦ stuck
    ]

abbrev pub mark_as_deleted : Bool → StoreEntry → StoreEntry
mark_as_deleted deleted e = record e {
  next_word =
      if deleted
      then bit_or e.next_word entry_deleted_mask
      else bit_and e.next_word (2 ^ 64 - 1 - entry_deleted_mask);
}

abbrev pub mark_as_first_entry : Bool → StoreEntry → StoreEntry
mark_as_first_entry first e = record e {
  next_word =
      if first
      then bit_or e.next_word first_record_entry
      else bit_and e.next_word (2 ^ 64 - 1 - first_record_entry);
}

abbrev pub set_prev_entry : ℕ → StoreEntry → StoreEntry
set_prev_entry content e = record e { prev_word = content }

-- `mEntriesCount`: as many as there are entries.
abbrev pub entries_count : VariableSizeStore → ℕ
entries_count s = length s.entries

-- A change of an entry through the cache.
abbrev pub change : ℕ → (StoreEntry → StoreEntry) → VariableSizeStore → VariableSizeStore
change id f s = record s { entries = set s.entries id (f (entry_at s id)) }

-- LAST_DELETED_ENTRY, the same number as LAST_CHAINED_ENTRY.
abbrev pub last_deleted_entry : ℕ
last_deleted_entry = 0x0fff_ffff_ffff_ffff
