-- ===== src/Pastra/BlockCache/Stuck.antt =====
-- Two ways in which `RetriveItem` goes wrong.
use whais.Prelude.{
  ℕ, zero, suc, ◌≤◌, ◌≡◌, refl, ap, ◌∙◌, true, false, none, some, List, ◌∷◌, length, arith, leb,
}
use whais.Pastra.BlockCache.{
  BlocksManager, BlockEntry, Blocks, BlockCache, done, failed, stuck, with_blocks, items_per_block,
  base_block_item, new_item, register_item, is_in_use, find, insert, update, evict, load_block,
  retrive_item,
}
use whais.Pastra.BlockCache.Blocks.{IsOrdered, find-update, find-insert}

module _ {S : Type 0} (m : BlocksManager S) where
  evict-stuck :
      (fuel : ℕ) (c : BlockCache) (k : ℕ) (e : BlockEntry) (rest : Blocks) (s : S)
      → is_in_use e ≡ true
      → evict m fuel c ((k, e) ∷ rest) s ≡ stuck
  unfolding evict
  evict-stuck zero c k e rest s used = refl
  evict-stuck (suc fuel) c k e rest s used = rw used (evict-stuck fuel c k e rest s used)

  -- Where the first cached block is in use and the cache is full, `RetriveItem` of an item that is
  -- not cached never returns: no fuel is enough for it.
  pub retrive_item-stuck :
      (fuel item : ℕ) (fresh : List ℕ) (c : BlockCache) (s : S) (k : ℕ) (e : BlockEntry)
      (rest : Blocks)
      → c.cached_blocks ≡ (k, e) ∷ rest
      → is_in_use e ≡ true
      → c.max_cached_blocks ≤ length c.cached_blocks
      → find (base_block_item c item) c.cached_blocks ≡ none
      → retrive_item m fuel fresh item c s ≡ stuck
  unfolding retrive_item
  retrive_item-stuck fuel item fresh c s k e rest first used full absent =
      let over : leb c.max_cached_blocks (length c.cached_blocks) ≡ true = ground arith in
      let never : evict m fuel c c.cached_blocks s ≡ stuck =
        ap (λ (b : Blocks). evict m fuel c b s) first ∙ evict-stuck fuel c k e rest s used in
      rw (absent, retrive_item, over, never) refl

  -- Where there is room and the manager throws while it reads a block that is not cached,
  -- `RetriveItem` throws too, but the block stays cached: the next `RetriveItem` of the item returns
  -- it as a hit, with the bytes that the failed read left in its memory.
  pub retrive_item-poisoned :
      (fuel item : ℕ) (fresh fresh' left : List ℕ) (c : BlockCache) (s s1 s2 : S)
      → IsOrdered c.cached_blocks
      → find (base_block_item c item) c.cached_blocks ≡ none
      → suc (length c.cached_blocks) ≤ c.max_cached_blocks
      → m.retrieve_items (base_block_item c item) (items_per_block c) fresh s ≡ (false, (left, s1))
      → (c' : BlockCache) × (retrive_item m fuel fresh item c s ≡ failed c' s1)
        × (retrive_item m fuel fresh' item c' s2
            ≡ done (new_item c item) (register_item (new_item c item) c') s2)
        × (find (base_block_item c item) c'.cached_blocks
            ≡ some (record { data_bytes = left; reference_count = 0; dirty = false }))
  unfolding retrive_item load_block
  retrive_item-poisoned fuel item fresh fresh' left c s s1 s2 ordered absent room throws =
      let base = base_block_item c item in
      let new : BlockEntry = record { data_bytes = fresh; reference_count = 0; dirty = false } in
      let kept : BlockEntry = record { data_bytes = left; reference_count = 0; dirty = false } in
      let blocks =
        update base (λ e. record e { data_bytes = left }) (insert base new c.cached_blocks) in
      let free : leb c.max_cached_blocks (length c.cached_blocks) ≡ false = ground arith in
      let there : find base blocks ≡ some kept = ground (
        arith,
        find-update base base (λ e. record e { data_bytes = left })
            (insert base new c.cached_blocks),
        find-insert base base new c.cached_blocks ordered absent,
      ) in
      (
        with_blocks c blocks,
        rw (absent, retrive_item, free, throws) refl,
        rw (there, retrive_item) refl,
        there,
      )
