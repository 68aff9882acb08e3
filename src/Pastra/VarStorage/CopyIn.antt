-- ===== src/Pastra/VarStorage/CopyIn.antt =====
-- The copying loop of `UpdateRecord` inside a record: its bytes are replaced in place.
use whais.Prelude.{
  ℕ, zero, suc, ◌+◌, ◌-◌, ◌*◌, ◌%◌, ◌^◌, ◌≤◌, ◌<◌, ◌≡◌, ◌≢◌, ◌∙◌, refl, ap, sym, false, List, [],
  ◌∷◌, length, get_elem?, drop, min, bit_and, arith, All, ltb, leb, ◌&&◌, ◌==◌, if◌then◌else◌,
  length-drop, length-set,
}
use native.Mathlib.Decide.{dec_lt}
use whais.Pastra.VarStorage.{
  StoreEntry, VariableSizeStore, done, entry_at, entries_count, change, next_entry, entry_size,
  last_chained_entry, entry_write,
}
use whais.Pastra.VarStorage.Allocate.{copy_in}
use whais.Pastra.VarStorage.Records.{IsChain, record_bytes}
use whais.Pastra.VarStorage.Chains.{
  IsApart, IsDistinct, entry_at-change, kept-IsChain, change-elsewhere,
}
use whais.Pastra.VarStorage.Splice.{written-entry, joined}

-- The bytes of the chain, with those of the buffer from `offset` on; no other entry is changed.
pub record Updated (s : VariableSizeStore) (id : ℕ) (ids : List ℕ) (offset : ℕ) (buffer : List ℕ)
    (s' : VariableSizeStore) : Type 0 where
  pub chain : IsChain s' id ids
  pub same_count : entries_count s' ≡ entries_count s
  pub others : (j : ℕ) → IsApart j ids → entry_at s' j ≡ entry_at s j
  pub bytes :
      (k : ℕ)
      → get_elem? (record_bytes s' ids) k ≡ (
          if leb offset k && ltb k (offset + length buffer)
          then get_elem? buffer (k - offset)
          else get_elem? (record_bytes s ids) k)

Updated-nothing :
    (s : VariableSizeStore) (id : ℕ) (ids : List ℕ) (offset : ℕ) (buffer : List ℕ)
    → IsChain s id ids
    → length buffer ≡ 0
    → Updated s id ids offset buffer s
Updated-nothing s id ids offset buffer chain e = record {
  chain = chain;
  same_count = refl;
  others = λ j apart. refl;
  bytes = λ k. ground arith;
}

copy_in-nothing :
    (fuel : ℕ) (s : VariableSizeStore) (prev id offset : ℕ) (buffer : List ℕ)
    → length buffer ≡ 0
    → 0 < fuel
    → copy_in fuel s prev id offset buffer ≡ done s
unfolding copy_in
copy_in-nothing zero s prev id offset buffer e h = elim h [ ]
copy_in-nothing (suc fuel) s prev id offset buffer e h = rw e refl

-- One round, inside the chain.
copy_in-step :
    (fuel : ℕ) (s : VariableSizeStore) (prev i offset : ℕ) (buffer : List ℕ)
    → 0 < length buffer
    → i ≢ last_chained_entry
    → copy_in (suc fuel) s prev i offset buffer
      ≡ copy_in fuel
          (change i (λ old. (entry_write offset buffer (entry_at s i)).1) s)
          i
          (next_entry (entry_write offset buffer (entry_at s i)).1)
          ((offset + (entry_write offset buffer (entry_at s i)).0) % entry_size)
          (drop (entry_write offset buffer (entry_at s i)).0 buffer)
unfolding copy_in
copy_in-step fuel s prev i offset buffer some inner =
    let some_left : (length buffer == 0) ≡ false = ground arith in
    let no_end : (i == last_chained_entry) ≡ false = ground arith in rw (some_left, no_end) refl

module _ (s : VariableSizeStore) (i offset : ℕ) (buffer : List ℕ) (e : StoreEntry) (ids : List ℕ)
    (count : ℕ) (s' : VariableSizeStore) where
  -- What the first entry and the rest of the chain hold together.
  written-Updated :
      i ≢ last_chained_entry
      → i < entries_count s
      → IsApart i ids
      → IsChain s (next_entry (entry_at s i)) ids
      → length (entry_at s i).raw_data ≡ entry_size
      → offset < entry_size
      → count ≡ min (length buffer) (entry_size - offset)
      → e.next_word ≡ (entry_at s i).next_word
      → length e.raw_data ≡ entry_size
      → ((k : ℕ)
          → get_elem? e.raw_data k ≡ (
              if leb offset k && ltb k (offset + count)
              then get_elem? buffer (k - offset)
              else get_elem? (entry_at s i).raw_data k))
      → Updated
          (change i (λ old. e) s)
          (next_entry e)
          ids
          ((offset + count) % entry_size)
          (drop count buffer)
          s'
      → Updated s i (i ∷ ids) offset buffer s'
  unfolding IsChain record_bytes IsApart
  written-Updated inner inside apart chain full place counted same_next long bytes u =
      let now : entry_at s' i ≡ e =
        u.others i apart ∙ ground (arith, entry_at-change s i i (λ old. e) inside) in
      let before =
        (kept-IsChain s (change i (λ old. e) s) (next_entry (entry_at s i)) ids
          (change-elsewhere s i (λ old. e) ids inside apart) chain).1 in
      record {
        chain = (refl, inner, rw now long, rw now u.chain);
        same_count = u.same_count ∙ length-set s.entries i e;
        others = λ j (other, apart').
            u.others j apart' ∙ ground (arith, entry_at-change s i j (λ old. e) inside);
        bytes = λ k. rw now (
            joined (entry_at s i).raw_data e.raw_data (record_bytes s ids) (record_bytes s' ids)
              buffer offset count k full long place counted (bytes k)
              (rw before at (u.bytes (k - entry_size))));
      }

-- One round, and the rounds behind it.
copy_in-continue :
    (fuel : ℕ) (s s' : VariableSizeStore) (prev id i : ℕ) (ids : List ℕ) (offset : ℕ)
    (buffer : List ℕ) (count : ℕ) (e : StoreEntry)
    → (count, e) ≡ entry_write offset buffer (entry_at s i)
    → IsChain s id (i ∷ ids)
    → IsApart i ids
    → i < entries_count s
    → offset < entry_size
    → 0 < length buffer
    → length buffer + entry_size ≤ 2 ^ 32
    → copy_in fuel
        (change i (λ old. e) s)
        i
        (next_entry e)
        ((offset + count) % entry_size)
        (drop count buffer)
      ≡ done s'
    → Updated
        (change i (λ old. e) s)
        (next_entry e)
        ids
        ((offset + count) % entry_size)
        (drop count buffer)
        s'
    → (copy_in (suc fuel) s prev id offset buffer ≡ done s')
      × Updated s id (i ∷ ids) offset buffer s'
unfolding IsChain
copy_in-continue fuel s s' prev id i ids offset buffer count e w (first, inner, full, chain) apart
      inside place some small eq u =
    let ec : (entry_write offset buffer (entry_at s i)).0 ≡ count = sym (ap (λ p. p.0) w) in
    let ee : (entry_write offset buffer (entry_at s i)).1 ≡ e = sym (ap (λ p. p.1) w) in
    let (counted, same_next, long, bytes) =
      written-entry (entry_at s i) offset buffer full place small in
    let counted' : count ≡ min (length buffer) (entry_size - offset) = sym ec ∙ counted in
    (
      rw first (copy_in-step fuel s prev i offset buffer some inner ∙ rw (ec, ee) eq),
      rw first (
          written-Updated s i offset buffer e ids count s' inner inside apart chain full place
            counted' (rw ee at same_next) (rw ee at long) (λ k. rw counted' (rw ee at (bytes k)))
            u),
    )

pub copy_in-Updated :
    (fuel : ℕ) (s : VariableSizeStore) (prev id : ℕ) (ids : List ℕ) (offset : ℕ) (buffer : List ℕ)
    → IsChain s id ids
    → IsDistinct ids
    → All (λ j. j < entries_count s) ids
    → offset < entry_size
    → offset + length buffer ≤ entry_size * length ids
    → length buffer + entry_size ≤ 2 ^ 32
    → length buffer < fuel
    → (s' : VariableSizeStore) × (copy_in fuel s prev id offset buffer ≡ done s')
      × Updated s id ids offset buffer s'
unfolding IsChain IsDistinct
copy_in-Updated zero s prev id ids offset buffer chain apart inside place fits small enough =
    elim enough [ ]
copy_in-Updated (suc fuel) s prev id [] offset buffer chain apart inside place fits small enough =
    let e : length buffer ≡ 0 = omega arith in
    (
      s,
      copy_in-nothing (suc fuel) s prev id offset buffer e (omega arith),
      Updated-nothing s id [] offset buffer chain e,
    )
copy_in-Updated (suc fuel) s prev id (i ∷ ids) offset buffer (first, inner, full, chain)
      (apart, distinct) (inside, insides) place fits small enough =
    elim (dec_lt 0 (length buffer)) [
      | no none_left ↦
          let e : length buffer ≡ 0 = omega arith in
          (
            s,
            copy_in-nothing (suc fuel) s prev id offset buffer e (omega arith),
            Updated-nothing s id (i ∷ ids) offset buffer (first, inner, full, chain) e,
          )
      | yes some ↦
          let w = entry_write offset buffer (entry_at s i) in
          let (counted, same_next, long, bytes) =
            written-entry (entry_at s i) offset buffer full place small in
          let s2 = change i (λ old. w.1) s in
          let same : next_entry w.1 ≡ next_entry (entry_at s i) =
            ap (λ n. bit_and n 0x3fff_ffff_ffff_ffff) same_next in
          let chain2 : IsChain s2 (next_entry w.1) ids =
            rw same
              (kept-IsChain s s2 (next_entry (entry_at s i)) ids
                (change-elsewhere s i (λ old. w.1) ids inside apart) chain).0 in
          let insides2 : All (λ j. j < entries_count s2) ids =
            rw (length-set s.entries i w.1) insides in
          let left = length-drop w.0 buffer in
          elim (dec_lt (entry_size - offset) (length buffer)) [
            | yes beyond ↦
                let (s', eq, u) =
                  copy_in-Updated fuel s2 i (next_entry w.1) ids ((offset + w.0) % entry_size)
                    (drop w.0 buffer) chain2 distinct insides2 (omega arith) (omega arith)
                    (omega arith) (omega arith) in
                let (whole, all) =
                  copy_in-continue fuel s s' prev id i ids offset buffer w.0 w.1 refl
                    (first, inner, full, chain) apart inside place some small eq u in
                (s', whole, all)
            | no within ↦
                let e : length (drop w.0 buffer) ≡ 0 = omega arith in
                let (whole, all) =
                  copy_in-continue fuel s s2 prev id i ids offset buffer w.0 w.1 refl
                    (first, inner, full, chain) apart inside place some small
                    (copy_in-nothing fuel s2 i _ _ _ e (omega arith))
                    (Updated-nothing s2 (next_entry w.1) ids _ _ chain2 e) in
                (s2, whole, all)
          ]
    ]
