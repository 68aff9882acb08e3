-- ===== src/Pastra/VarStorage/Splice.antt =====
-- A buffer written over the bytes of one entry, and of an entry in front of others.
use whais.Prelude.{
  ℕ, ◌+◌, ◌-◌, ◌%◌, ◌^◌, ◌≤◌, ◌<◌, ◌≡◌, ◌∙◌, refl, List, ◌++◌, length, get_elem?, take, drop, min,
  arith, ltb, leb, ◌&&◌, if◌then◌else◌, length-append, length-take, length-drop, get_elem?-append,
  get_elem?-take, get_elem?-drop,
}
use whais.Pastra.VarStorage.{StoreEntry, entry_size, clip, entry_write}

spliced :
    (raw buf : List ℕ) (offset c : ℕ)
    → c ≤ length buf
    → offset + c ≤ length raw
    → (length (take offset raw ++ take c buf ++ drop (offset + c) raw) ≡ length raw)
      × ((k : ℕ)
          → get_elem? (take offset raw ++ take c buf ++ drop (offset + c) raw) k ≡ (
              if leb offset k && ltb k (offset + c)
              then get_elem? buf (k - offset)
              else get_elem? raw k))
spliced raw buf offset c enough fits =
    let front = length-take offset raw in
    let middle = length-take c buf in
    (
      omega (
        arith,
        length-append (take offset raw ++ take c buf) (drop (offset + c) raw),
        length-append (take offset raw) (take c buf),
        length-drop (offset + c) raw,
      ),
      λ k. ground (
        arith,
        front,
        middle,
        length-append (take offset raw) (take c buf),
        get_elem?-append (take offset raw ++ take c buf) (drop (offset + c) raw) k,
        get_elem?-append (take offset raw) (take c buf) k,
        get_elem?-take offset raw k,
        get_elem?-take c buf (k - offset),
        get_elem?-drop (offset + c) raw (k - (offset + c)),
      ),
    )

-- The entry with as much of the buffer as goes into it.
pub written-entry :
    (e : StoreEntry) (offset : ℕ) (buffer : List ℕ)
    → length e.raw_data ≡ entry_size
    → offset < entry_size
    → length buffer + entry_size ≤ 2 ^ 32
    → ((entry_write offset buffer e).0 ≡ min (length buffer) (entry_size - offset))
      × ((entry_write offset buffer e).1.next_word ≡ e.next_word)
      × (length (entry_write offset buffer e).1.raw_data ≡ entry_size)
      × ((k : ℕ)
          → get_elem? (entry_write offset buffer e).1.raw_data k ≡ (
              if leb offset k && ltb k (offset + min (length buffer) (entry_size - offset))
              then get_elem? buffer (k - offset)
              else get_elem? e.raw_data k))
unfolding entry_write
written-entry e offset buffer full inside small =
    let count : clip offset (length buffer % 2 ^ 32) ≡ min (length buffer) (entry_size - offset) =
      ground arith in
    rw count (
      refl,
      refl,
      (spliced e.raw_data buffer offset _ (omega arith) (omega arith)).0 ∙ full,
      (spliced e.raw_data buffer offset _ (omega arith) (omega arith)).1,
    )

-- The bytes of the first entry and of the rest of the chain, side by side.
pub joined :
    (raw raw' all all' buffer : List ℕ) (offset count k : ℕ)
    → length raw ≡ entry_size
    → length raw' ≡ entry_size
    → offset < entry_size
    → count ≡ min (length buffer) (entry_size - offset)
    → get_elem? raw' k ≡ (
        if leb offset k && ltb k (offset + count)
        then get_elem? buffer (k - offset)
        else get_elem? raw k)
    → get_elem? all' (k - entry_size) ≡ (
        if leb ((offset + count) % entry_size) (k - entry_size)
          && ltb (k - entry_size) ((offset + count) % entry_size + length (drop count buffer))
        then get_elem? (drop count buffer) (k - entry_size - (offset + count) % entry_size)
        else get_elem? all (k - entry_size))
    → get_elem? (raw' ++ all') k ≡ (
        if leb offset k && ltb k (offset + length buffer)
        then get_elem? buffer (k - offset)
        else get_elem? (raw ++ all) k)
joined raw raw' all all' buffer offset count k full full' place counted here behind = ground (
  arith,
  get_elem?-append raw' all' k,
  get_elem?-append raw all k,
  length-drop count buffer,
  get_elem?-drop count buffer (k - entry_size - (offset + count) % entry_size),
)
