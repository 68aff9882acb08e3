-- ===== src/Pastra/VarStorage/Update.antt =====
-- `UpdateRecord` inside a record: the entry with the first byte is found down the chain, and the
-- bytes are replaced from there on.
use whais.Prelude.{
  ℕ, zero, suc, ◌+◌, ◌-◌, ◌*◌, ◌^◌, ◌≤◌, ◌<◌, ◌≡◌, ◌≢◌, ◌∙◌, refl, true, false, List, [], ◌∷◌,
  length, get_elem?-append, arith, All, ltb, ◌==◌,
}
use native.Mathlib.Decide.{dec_lt}
use whais.Pastra.VarStorage.{
  VariableSizeStore, done, entry_at, entries_count, next_entry, entry_size, last_chained_entry,
}
use whais.Pastra.VarStorage.Allocate.{find_for_update, update_record}
use whais.Pastra.VarStorage.Records.{IsChain, record_bytes}
use whais.Pastra.VarStorage.Chains.{IsApart, IsDistinct}
use whais.Pastra.VarStorage.CopyIn.{Updated, copy_in-Updated}

-- An update behind the first entry is one of the whole record.
Updated-behind :
    (s s' : VariableSizeStore) (i offset : ℕ) (ids : List ℕ) (buffer : List ℕ)
    → IsApart i ids
    → i ≢ last_chained_entry
    → length (entry_at s i).raw_data ≡ entry_size
    → entry_size ≤ offset
    → Updated s (next_entry (entry_at s i)) ids (offset - entry_size) buffer s'
    → Updated s i (i ∷ ids) offset buffer s'
unfolding IsChain record_bytes IsApart
Updated-behind s s' i offset ids buffer apart inner full later u =
    let kept : entry_at s' i ≡ entry_at s i = u.others i apart in
    record {
      chain = (refl, inner, rw kept full, rw kept u.chain);
      same_count = u.same_count;
      others = λ j (other, apart'). u.others j apart';
      bytes = λ k. rw kept (
          ground (
            arith,
            full,
            get_elem?-append (entry_at s i).raw_data (record_bytes s ids) k,
            get_elem?-append (entry_at s i).raw_data (record_bytes s' ids) k,
            u.bytes (k - entry_size),
          ));
    }

-- The chain from an entry on, in which the place of the first byte lies.
record From (s : VariableSizeStore) (id : ℕ) (ids : List ℕ) (offset : ℕ) (buffer : List ℕ)
    (found : ℕ) (place : ℕ) (rest : List ℕ) : Type 0 where
  chain : IsChain s found rest
  distinct : IsDistinct rest
  inside : All (λ j. j < entries_count s) rest
  near : place < entry_size
  sizes : place + entry_size * length ids ≡ offset + entry_size * length rest
  whole :
      (s' : VariableSizeStore)
      → Updated s found rest place buffer s'
      → Updated s id ids offset buffer s'

find_for_update-here :
    (fuel : ℕ) (s : VariableSizeStore) (prev id offset : ℕ)
    → id ≢ last_chained_entry
    → offset < entry_size
    → find_for_update (suc fuel) s prev id offset ≡ done (prev, (id, offset))
unfolding find_for_update
find_for_update-here fuel s prev id offset inner here =
    let no_end : (id == last_chained_entry) ≡ false = ground arith in
    let near : ltb offset entry_size ≡ true = ground arith in rw (no_end, near) refl

find_for_update-later :
    (fuel : ℕ) (s : VariableSizeStore) (prev id offset : ℕ)
    → id ≢ last_chained_entry
    → entry_size ≤ offset
    → find_for_update (suc fuel) s prev id offset
      ≡ find_for_update fuel s id (next_entry (entry_at s id)) (offset - entry_size)
unfolding find_for_update
find_for_update-later fuel s prev id offset inner later =
    let no_end : (id == last_chained_entry) ≡ false = ground arith in
    let far : ltb offset entry_size ≡ false = ground arith in rw (no_end, far) refl

-- The entry that holds byte `offset`, as `UpdateRecord` finds it.
find_for_update-found :
    (fuel : ℕ) (s : VariableSizeStore) (prev id : ℕ) (ids : List ℕ) (offset : ℕ) (buffer : List ℕ)
    → IsChain s id ids
    → IsDistinct ids
    → All (λ j. j < entries_count s) ids
    → offset < entry_size * length ids
    → offset < entry_size * fuel
    → (before : ℕ) × (found : ℕ) × (place : ℕ) × (rest : List ℕ) × (find_for_update fuel s prev id
          offset
        ≡ done (before, (found, place)))
      × From s id ids offset buffer found place rest
unfolding IsChain IsDistinct
find_for_update-found zero s prev id ids offset buffer chain distinct inside some enough =
    absurd (omega arith)
find_for_update-found (suc fuel) s prev id [] offset buffer chain distinct inside some enough =
    absurd (omega arith)
find_for_update-found (suc fuel) s prev id (i ∷ ids) offset buffer (e, inner, full, chain)
      (apart, distinct) (inside, insides) some enough =
    elim (dec_lt offset entry_size) [
      | yes here ↦ (
        prev,
        id,
        offset,
        i ∷ ids,
        rw e (find_for_update-here fuel s prev i offset inner here),
        record {
          chain = (e, inner, full, chain);
          distinct = (apart, distinct);
          inside = (inside, insides);
          near = here;
          sizes = refl;
          whole = λ s' u. u;
        },
      )
      | no later ↦
          let (before, found, place, rest, eq, w) =
            find_for_update-found fuel s i (next_entry (entry_at s i)) ids (offset - entry_size)
              buffer chain distinct insides (omega arith) (omega arith) in
          (
            before,
            found,
            place,
            rest,
            rw e (find_for_update-later fuel s prev i offset inner (omega arith) ∙ eq),
            record {
              chain = w.chain;
              distinct = w.distinct;
              inside = w.inside;
              near = w.near;
              sizes = omega (arith, w.sizes);
              whole = λ s' u. rw e (
                  Updated-behind s s' i offset ids buffer apart inner full (omega arith)
                    (w.whole s' u));
            },
          )
    ]

-- `UpdateRecord` that begins inside a record, whose entries are distinct and in the store, and ends
-- inside it or at its end, with 48 bytes less than 2 ^ 32 at most: with fuel above the number of
-- bytes and above the number of entries in front of the first byte it returns; the record has the
-- same entries, and the bytes of the buffer from `offset` on with all its other bytes as they were;
-- and no entry of another record is changed.
pub update_record_lem :
    (fuel : ℕ) (s : VariableSizeStore) (first : ℕ) (ids : List ℕ) (offset : ℕ) (buffer : List ℕ)
    → IsChain s first ids
    → IsDistinct ids
    → All (λ j. j < entries_count s) ids
    → offset < entry_size * length ids
    → offset + length buffer ≤ entry_size * length ids
    → length buffer + entry_size ≤ 2 ^ 32
    → length buffer < fuel
    → offset < entry_size * fuel
    → (s' : VariableSizeStore) × (update_record fuel s first offset buffer ≡ done s')
      × Updated s first ids offset buffer s'
unfolding update_record
update_record_lem fuel s first ids offset buffer chain distinct inside some fits small enough
      enough' =
    let (before, found, place, rest, e1, w) =
      find_for_update-found fuel s first first ids offset buffer chain distinct inside some
        enough' in
    let (s', e2, u) =
      copy_in-Updated fuel s before found rest place buffer w.chain w.distinct w.inside w.near
        (omega (arith, w.sizes)) small enough in
    (s', rw (e1, update_record) e2, w.whole s' u)
