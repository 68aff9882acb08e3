-- ===== src/Pastra/BlockCache/Update.antt =====
-- `GetDataForUpdate`: a client writes to a cached block.
use whais.Prelude.{
  ℕ, ◌+◌, ◌-◌, ◌≤◌, ◌≡◌, ◌∙◌, refl, inl, inr, some, List, ◌++◌, take, drop, length, get_elem?,
  arith, ltb, leb, ◌&&◌, ◌==◌, if◌then◌else◌, length-take, length-drop, get_elem?-append,
  get_elem?-take, get_elem?-drop,
}
use native.Mathlib.Decide.{ℕ_discrete}
use whais.Pastra.BlockCache.{
  BlocksManager, BlockEntry, BlockCache, StoredItem, mark_dirty, find, update, get_data_for_update,
  get_data_for_read,
}
use whais.Pastra.BlockCache.Blocks.{IsOrdered-update, find-update, found-update, length-update}
use whais.Pastra.BlockCache.Coherence.{Laws, view, IsValid}

-- The client stores `bytes` from place `at` of the memory on, where it is long enough, and leaves
-- the rest alone.
pub record IsWrite (at : ℕ) (bytes : List ℕ) (write : List ℕ → List ℕ) : Type 0 where
  pub stored :
      (memory : List ℕ) (k : ℕ)
      → at + length bytes ≤ length memory
      → get_elem? (write memory) k ≡ (
          if leb at k && ltb k (at + length bytes)
          then get_elem? bytes (k - at)
          else get_elem? memory k)

-- The bytes of the block, behind the write to a part of it.
written-block :
    (block : List ℕ) (offset at : ℕ) (bytes : List ℕ) (write : List ℕ → List ℕ)
    → IsWrite at bytes write
    → offset + at + length bytes ≤ length block
    → (k : ℕ)
    → get_elem? (take offset block ++ write (drop offset block)) k ≡ (
        if leb (offset + at) k && ltb k (offset + at + length bytes)
        then get_elem? bytes (k - (offset + at))
        else get_elem? block k)
written-block block offset at bytes write w fits k = ground (
  arith,
  w.stored (drop offset block) (k - offset),
  length-drop offset block,
  length-take offset block,
  get_elem?-append (take offset block) (write (drop offset block)) k,
  get_elem?-take offset block k,
  get_elem?-drop offset block (k - offset),
)

module _ {S : Type 0} {m : BlocksManager S} {per : ℕ} (laws : Laws m per) where
  -- A write of a client through an item of a cached block, which ends inside the block, keeps the
  -- cache valid: what is read through the item afterwards is what was written, and what was there
  -- behind and in front of it; and of all the blocks only the bytes at that place change, as far as
  -- the manager knows the block.
  pub get_data_for_update_lem :
      (i : StoredItem) (at : ℕ) (bytes : List ℕ) (write : List ℕ → List ℕ) (e : BlockEntry)
      (c : BlockCache) (s : S)
      → IsWrite at bytes write
      → IsValid laws c s
      → find i.block_entry c.cached_blocks ≡ some e
      → i.item_offset + at + length bytes ≤ length e.data_bytes
      → IsValid laws (get_data_for_update i write c) s
        × ((b k : ℕ)
            → get_elem? (view laws (get_data_for_update i write c) s b) k ≡ (
                if (b == i.block_entry)
                  && leb (i.item_offset + at) k
                  && ltb k (i.item_offset + at + length bytes)
                  && ltb k (laws.known s b)
                then get_elem? bytes (k - (i.item_offset + at))
                else get_elem? (view laws c s b) k))
        × (got : List ℕ) × (get_data_for_read i (get_data_for_update i write c) ≡ some got)
        × ((k : ℕ)
            → get_elem? got k ≡ (
                if leb at k && ltb k (at + length bytes)
                then get_elem? bytes (k - at)
                else get_elem? e.data_bytes (i.item_offset + k)))
  unfolding get_data_for_update get_data_for_read
  get_data_for_update_lem i at bytes write e c s w v here fits =
      let k = i.block_entry in
      let f : BlockEntry → BlockEntry = λ d. mark_dirty (record d {
        data_bytes = take i.item_offset d.data_bytes ++ write (drop i.item_offset d.data_bytes);
      }) in
      let now : find k (update k f c.cached_blocks) ≡ some (f e) =
        ground (arith, find-update k k f c.cached_blocks) in
      (
        record {
          per_block = v.per_block;
          max_pos = v.max_pos;
          ordered = IsOrdered-update k f c.cached_blocks v.ordered;
          few = omega (arith, v.few, length-update k f c.cached_blocks);
          aligned = λ j d h. elim (found-update k j f c.cached_blocks e d here h) [
            | inl (same, eq) ↦ rw same (v.aligned k e here)
            | inr (other, h') ↦ v.aligned j d h'
          ];
          ready = λ j d h. elim (found-update k j f c.cached_blocks e d here h) [
            | inl (same, eq) ↦ rw same (v.ready k e here)
            | inr (other, h') ↦ v.ready j d h'
          ];
          clean = λ j d h clean. elim (found-update k j f c.cached_blocks e d here h) [
            | inl (same, eq) ↦ absurd (ground (arith, eq, clean))
            | inr (other, h') ↦ v.clean j d h' clean
          ];
        },
        λ b j. elim (ℕ_discrete b k) [
          | yes same ↦ rw same (
              ground (
                arith,
                now,
                here,
                get_elem?-take (laws.known s k) (f e).data_bytes j,
                get_elem?-take (laws.known s k) e.data_bytes j,
                written-block e.data_bytes i.item_offset at bytes write w fits j,
              ))
          | no other ↦ ground (arith, find-update k b f c.cached_blocks)
        ],
        drop i.item_offset (f e).data_bytes,
        rw (now, get_data_for_read) refl,
        λ j.
            get_elem?-drop i.item_offset (f e).data_bytes j
            ∙ ground (
              arith,
              written-block e.data_bytes i.item_offset at bytes write w fits (i.item_offset + j),
            ),
      )
