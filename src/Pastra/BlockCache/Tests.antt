-- ===== src/Pastra/BlockCache/Tests.antt =====
-- A cache of one block in front of a manager in memory, at concrete inputs.
use whais.Prelude.{
  ℕ, zero, suc, ◌+◌, ◌-◌, ◌%◌, ◌≤◌, ◌≡◌, refl, inr, true, false, some, List, [], ◌∷◌, take, max,
  arith, length, get_elem?, ltb, leb, ◌&&◌, ◌==◌, if◌then◌else◌,
}
use whais.Pastra.BlockCache.{
  BlocksManager, BlockEntry, BlockCache, StoredItem, done, failed, stuck, new_item, new_block_cache,
  find, insert, update, init, retrive_item, flush, register_item, get_data_for_read,
  get_data_for_update,
}
use whais.Pastra.BlockCache.Blocks.{IsOrdered}
use whais.Pastra.BlockCache.Coherence.{Laws, view, IsValid, Same}
use whais.Pastra.BlockCache.Retrive.{HasFreeFirst, Retrived, retrive_item_lem}
use whais.Pastra.BlockCache.Flush.{flush_lem}
use whais.Pastra.BlockCache.Update.{IsWrite, get_data_for_update_lem}
use whais.Pastra.BlockCache.Init.{init_lem}
use whais.Pastra.BlockCache.Stuck.{retrive_item-stuck, retrive_item-poisoned}

abbrev Memory : Type 0
Memory = ℕ → List ℕ

abbrev in_memory : BlocksManager Memory
in_memory = record {
  store_items = λ b n bytes s. (true, λ j. if j == b then bytes else s j);
  retrieve_items = λ b n bytes s. (true, (s b, s));
}

abbrev in_memory-Laws : Laws in_memory 2
in_memory-Laws = record {
  IsReady = λ s b. Unit;
  known = λ s b. 4;
  contents = λ s b. take 4 (s b);
  store_returns = λ b bytes s r. refl;
  store_ready = λ b bytes s j r r'. tt;
  store_known = λ b bytes s j r. refl;
  store_contents = λ b bytes s j r. ground arith;
  retrieve_returns = λ b bytes s r. refl;
  retrieve_bytes = λ b bytes s r. refl;
  retrieve_ready = λ b bytes s j r r'. tt;
  retrieve_known = λ b bytes s j r. refl;
  retrieve_contents = λ b bytes s j r. refl;
}

-- A manager whose reads throw, half way through.
abbrev broken : BlocksManager Memory
broken = record {
  store_items = λ b n bytes s. (true, s);
  retrieve_items = λ b n bytes s. (false, (7 ∷ 7 ∷ 0 ∷ 0 ∷ [], s));
}

abbrev memory : Memory
memory b = b ∷ b ∷ b ∷ b ∷ []

abbrev written : BlockEntry
written = record { data_bytes = 1 ∷ 2 ∷ 3 ∷ 4 ∷ []; reference_count = 0; dirty = true }

abbrev held : BlockEntry
held = record { data_bytes = 1 ∷ 2 ∷ 3 ∷ 4 ∷ []; reference_count = 1; dirty = true }

abbrev cache_of : BlockEntry → BlockCache
cache_of e = record {
  item_size = 2;
  block_size = 4;
  max_cached_blocks = 1;
  skip_flush = false;
  cached_blocks = (0, e) ∷ [];
}

abbrev empty_cache : BlockCache
empty_cache = record (cache_of written) { cached_blocks = [] }

found_zero :
    (k : ℕ) (e : BlockEntry)
    → find k (cache_of written).cached_blocks ≡ some e
    → (k ≡ 0) × (e ≡ written)
unfolding find
found_zero k e h = ground arith

cache-IsValid : IsValid in_memory-Laws (cache_of written) memory
unfolding find IsOrdered
cache-IsValid = record {
  per_block = refl;
  max_pos = omega arith;
  ordered = ((λ j h. refl), tt);
  few = omega arith;
  aligned = λ k e h. rw (found_zero k e h).0 refl;
  ready = λ k e h. tt;
  clean = λ k e h clean. absurd (ground (arith, found_zero k e h));
}

-- The dirty block makes way for the block of item 3.
evicting :
    (c' : BlockCache) × (s' : Memory) × (retrive_item in_memory 1 [] 3 (cache_of written) memory
      ≡ done (new_item (cache_of written) 3) c' s')
    × (c'.cached_blocks
        ≡ (2, record { data_bytes = 2 ∷ 2 ∷ 2 ∷ 2 ∷ []; reference_count = 1; dirty = false }) ∷ [])
    × (s' 0 ≡ 1 ∷ 2 ∷ 3 ∷ 4 ∷ [])
unfolding retrive_item find update insert
evicting = (_, _, refl, refl, refl)

retrive_item_lem_example :
    (c' : BlockCache) × (s' : Memory) × (retrive_item in_memory 1 [] 3 (cache_of written) memory
      ≡ done (new_item (cache_of written) 3) c' s')
    × Retrived in_memory-Laws 2 (cache_of written) memory c' s'
unfolding HasFreeFirst
retrive_item_lem_example =
    retrive_item_lem in_memory-Laws 0 3 [] (cache_of written) memory cache-IsValid tt refl

flush_lem_example :
    (c' : BlockCache) × (s' : Memory) × (flush in_memory (cache_of written) memory ≡ done tt c' s')
    × Same in_memory-Laws (cache_of written) memory c' s'
    × ((j : ℕ) (e : BlockEntry) → find j c'.cached_blocks ≡ some e → e.dirty ≡ false)
    × ((j : ℕ) → take 4 (s' j) ≡ view in_memory-Laws (cache_of written) memory j)
flush_lem_example = flush_lem in_memory-Laws (cache_of written) memory cache-IsValid refl

abbrev item_1 : StoredItem
item_1 = new_item (cache_of written) 1

-- A client that writes 9 behind the first byte.
abbrev put_nine : List ℕ → List ℕ
put_nine [] = []
put_nine (x ∷ []) = x ∷ []
put_nine (x ∷ y ∷ rest) = x ∷ 9 ∷ rest

put_nine-IsWrite : IsWrite 1 (9 ∷ []) put_nine
put_nine-IsWrite = record { stored = at_place }
  where
    at_place :
        (memory : List ℕ) (k : ℕ)
        → 2 ≤ length memory
        → get_elem? (put_nine memory) k
          ≡ (if leb 1 k && ltb k 2 then get_elem? (9 ∷ []) (k - 1) else get_elem? memory k)
    at_place [] k h = absurd (omega arith)
    at_place (x ∷ []) k h = absurd (omega arith)
    at_place (x ∷ y ∷ rest) zero h = refl
    at_place (x ∷ y ∷ rest) (suc zero) h = refl
    at_place (x ∷ y ∷ rest) (suc (suc k)) h = ground arith

get_data_for_update_lem_example :
    IsValid in_memory-Laws (get_data_for_update item_1 put_nine (cache_of written)) memory
    × ((b k : ℕ)
        → get_elem?
            (view in_memory-Laws (get_data_for_update item_1 put_nine (cache_of written)) memory b)
            k
          ≡ (if (b == 0) && leb 3 k && ltb k 4 && ltb k 4
              then get_elem? (9 ∷ []) (k - 3)
              else get_elem? (view in_memory-Laws (cache_of written) memory b) k))
    × (got : List ℕ) × (get_data_for_read item_1
          (get_data_for_update item_1 put_nine (cache_of written))
        ≡ some got)
    × ((k : ℕ)
        → get_elem? got k ≡ (
            if leb 1 k && ltb k 2
            then get_elem? (9 ∷ []) (k - 1)
            else get_elem? (1 ∷ 2 ∷ 3 ∷ 4 ∷ []) (2 + k)))
unfolding find
get_data_for_update_lem_example =
    get_data_for_update_lem in_memory-Laws item_1 1 (9 ∷ []) put_nine written (cache_of written)
      memory put_nine-IsWrite cache-IsValid refl (omega arith)

retrive_item-stuck_example : retrive_item in_memory 100 [] 3 (cache_of held) memory ≡ stuck
unfolding find
retrive_item-stuck_example =
    retrive_item-stuck in_memory 100 3 [] (cache_of held) memory 0 held [] refl refl (omega arith)
      refl

retrive_item-poisoned_example :
    (c' : BlockCache) × (retrive_item broken 1 [] 3 empty_cache memory ≡ failed c' memory)
    × (retrive_item broken 1 [] 3 c' memory
        ≡ done (new_item empty_cache 3) (register_item (new_item empty_cache 3) c') memory)
    × (find 2 c'.cached_blocks
        ≡ some (record { data_bytes = 7 ∷ 7 ∷ 0 ∷ 0 ∷ []; reference_count = 0; dirty = false }))
unfolding find IsOrdered
retrive_item-poisoned_example =
    retrive_item-poisoned broken 1 3 [] [] (7 ∷ 7 ∷ 0 ∷ 0 ∷ []) empty_cache memory memory memory tt
      refl (omega arith) refl

init_lem_example :
    (c : BlockCache) × (init 64 1000 16 false new_block_cache ≡ inr c)
    × (c.item_size ≡ 64)
    × (c.max_cached_blocks ≡ 16)
    × (c.skip_flush ≡ false)
    × (c.cached_blocks ≡ [])
    × (c.block_size % 64 ≡ 0)
    × (64 ≤ c.block_size)
    × (c.block_size ≤ max 64 1000)
init_lem_example = init_lem 64 1000 16 false (omega arith) (omega arith)
