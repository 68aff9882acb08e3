-- ===== src/Pastra/BlockCache.antt =====
-- dbs/pastra/ps_blockcache.h and ps_blockcache.cpp, classes BlockEntry, StoredItem and BlockCache:
-- blocks of items that are kept in memory, in front of an IBlocksManager which stores them.
pub mod Blocks
pub mod Coherence
pub mod Steps
pub mod Retrive
pub mod Flush
pub mod Update
pub mod Init
pub mod Stuck
mod Tests
use whais.Prelude.{
  ℕ, zero, suc, ◌+◌, ◌-◌, ◌*◌, ◌/◌, ◌%◌, ◌^◌, Bool, true, false, ◌&&◌, ◌||◌, Option, none, some,
  List, [], ◌∷◌, ◌++◌, length, take, drop, ltb, leb, ◌==◌, ◌⊎◌, inl, inr, not, if◌then◌else◌,
}

-- The interface IBlocksManager, over the state `S` of what implements it. A call answers whether it
-- returns, rather than throws; RetrieveItems also leaves its bytes in the buffer it is given.
pub record BlocksManager (S : Type 0) : Type 0 where
  pub store_items : ℕ → ℕ → List ℕ → S → Bool × S
  pub retrieve_items : ℕ → ℕ → List ℕ → S → Bool × (List ℕ × S)

-- `dirty` is the one flag of `mFlags`.
pub record BlockEntry : Type 0 where
  pub data_bytes : List ℕ
  pub reference_count : ℕ
  pub dirty : Bool

abbrev pub is_in_use : BlockEntry → Bool
is_in_use e = ltb 0 e.reference_count

abbrev pub mark_dirty : BlockEntry → BlockEntry
mark_dirty e = record e { dirty = true }

abbrev pub mark_clean : BlockEntry → BlockEntry
mark_clean e = record e { dirty = false }

abbrev pub register_user : BlockEntry → BlockEntry
register_user e = record e { reference_count = (e.reference_count + 1) % 2 ^ 32 }

abbrev pub release_user : BlockEntry → BlockEntry
release_user e = record e { reference_count = (e.reference_count + (2 ^ 32 - 1)) % 2 ^ 32 }

-- `std::map<uint64_t, BlockEntry>`: the entries in the order of their keys.
abbrev pub Blocks : Type 0
Blocks = List (ℕ × BlockEntry)

unfoldable pub find : ℕ → Blocks → Option BlockEntry
find k [] = none
find k ((k', e) ∷ rest) = if k == k' then some e else find k rest

unfoldable pub insert : ℕ → BlockEntry → Blocks → Blocks
insert k e [] = (k, e) ∷ []
insert k e ((k', e') ∷ rest) =
    let more = insert k e rest in
    if ltb k k'
    then (k, e) ∷ (k', e') ∷ rest
    else if k == k'
    then (k', e') ∷ rest
    else (k', e') ∷ more

-- A change of the entry with key `k`, through a pointer to it.
unfoldable pub update : ℕ → (BlockEntry → BlockEntry) → Blocks → Blocks
update k f [] = []
update k f ((k', e) ∷ rest) =
    let more = update k f rest in if k == k' then (k', f e) ∷ rest else (k', e) ∷ more

pub record BlockCache : Type 0 where
  pub item_size : ℕ
  pub block_size : ℕ
  pub max_cached_blocks : ℕ
  pub skip_flush : Bool
  pub cached_blocks : Blocks

-- What a client holds: the entry, by its key, and where the item begins in its bytes.
pub record StoredItem : Type 0 where
  pub block_entry : ℕ
  pub item_offset : ℕ

-- `stuck` is no outcome of the program: the fuel of the model ran out.
pub data Outcome (S : Type 0) (A : Type 0) : Type 0 where
  done : A → BlockCache → S → Outcome S A
  failed : BlockCache → S → Outcome S A
  stuck : Outcome S A

abbrev pub and_then :
    {S A B : Type 0} → Outcome S A → (A → BlockCache → S → Outcome S B) → Outcome S B
and_then (done a c s) k = k a c s
and_then (failed c s) k = failed c s
and_then stuck k = stuck

abbrev pub with_blocks : BlockCache → Blocks → BlockCache
with_blocks c blocks = record c { cached_blocks = blocks }

abbrev pub items_per_block : BlockCache → ℕ
items_per_block c = c.block_size / c.item_size

abbrev pub base_block_item : BlockCache → ℕ → ℕ
base_block_item c item = (item / items_per_block c) * items_per_block c

-- The constructor of BlockCache, and `Init`: the codes of DBSException it throws.
pub data InitError : Type 0 where
  bad_parameters : InitError
  general_control_error : InitError

abbrev pub new_block_cache : BlockCache
new_block_cache = record {
  item_size = 0;
  block_size = 0;
  max_cached_blocks = 0;
  skip_flush = false;
  cached_blocks = [];
}

unfoldable pub init : ℕ → ℕ → ℕ → Bool → BlockCache → InitError ⊎ BlockCache
init item_size block_size max_cached_blocks non_persistent c =
    if item_size == 0 || max_cached_blocks == 0
    then inl bad_parameters
    else if not (c.item_size == 0 && (c.block_size == 0 && c.max_cached_blocks == 0))
    then inl general_control_error
    else inr (record c {
      item_size = item_size;
      max_cached_blocks = max_cached_blocks;
      block_size =
          if ltb block_size item_size then item_size else block_size - block_size % item_size;
      skip_flush = non_persistent;
    })

-- StoredItem: its constructor, its destructor, and the two ways to the bytes.
abbrev pub new_item : BlockCache → ℕ → StoredItem
new_item c item = record {
  block_entry = base_block_item c item;
  item_offset = (item % items_per_block c) * c.item_size;
}

unfoldable pub register_item : StoredItem → BlockCache → BlockCache
register_item i c = with_blocks c (update i.block_entry register_user c.cached_blocks)

unfoldable pub release_item : StoredItem → BlockCache → BlockCache
release_item i c = with_blocks c (update i.block_entry release_user c.cached_blocks)

-- `operator=`: `held` refers to what `src` refers to.
unfoldable pub assign_item : StoredItem → StoredItem → BlockCache → StoredItem × BlockCache
unfolding register_item release_item
assign_item held src c = (src, release_item held (register_item src c))

unfoldable pub get_data_for_read : StoredItem → BlockCache → Option (List ℕ)
get_data_for_read i c = elim (find i.block_entry c.cached_blocks) [
  | none ↦ none
  | some e ↦ some (drop i.item_offset e.data_bytes)
]

-- `GetDataForUpdate`, and then `write`, which is what the client does to the memory behind the
-- pointer that it is given.
unfoldable pub get_data_for_update : StoredItem → (List ℕ → List ℕ) → BlockCache → BlockCache
get_data_for_update i write c = with_blocks c (
    update i.block_entry
      (λ e. mark_dirty (record e {
        data_bytes = take i.item_offset e.data_bytes ++ write (drop i.item_offset e.data_bytes);
      }))
      c.cached_blocks)

module _ {S : Type 0} (m : BlocksManager S) where
  -- The loop of `RetriveItem` that makes room. Its iterator always stands at the first block, since
  -- it moves only when the block before it is erased; `continue` does not move it.
  unfoldable pub evict : ℕ → BlockCache → Blocks → S → Outcome S (Unit {0})
  evict zero c blocks s = stuck
  evict (suc fuel) c [] s = done tt (with_blocks c []) s
  evict (suc fuel) c ((k, e) ∷ rest) s =
      let again = evict fuel c ((k, e) ∷ rest) s in
      let erased = λ (s' : S).
        let next = evict fuel c rest s' in
        if ltb (length rest) c.max_cached_blocks then done tt (with_blocks c rest) s' else next in
      if is_in_use e
      then again
      else if e.dirty
      then (let (ok, s') = m.store_items k (items_per_block c) e.data_bytes s in
          if ok then erased s' else failed (with_blocks c ((k, e) ∷ rest)) s')
      else erased s

  -- The new block goes into the cache, and its bytes are read into it. `fresh` is what the memory
  -- of the new block holds.
  unfoldable pub load_block : ℕ → List ℕ → BlockCache → S → Outcome S (Unit {0})
  load_block base fresh c s =
      let entry : BlockEntry = record { data_bytes = fresh; reference_count = 0; dirty = false } in
      let blocks = insert base entry c.cached_blocks in
      let (ok, (bytes, s')) = m.retrieve_items base (items_per_block c) fresh s in
      let c' = with_blocks c (update base (λ e. record e { data_bytes = bytes }) blocks) in
      if ok then done tt c' s' else failed c' s'

  unfoldable pub retrive_item : ℕ → List ℕ → ℕ → BlockCache → S → Outcome S StoredItem
  unfolding evict load_block register_item
  retrive_item fuel fresh item c s =
      let i = new_item c item in
      let room =
        if leb c.max_cached_blocks (length c.cached_blocks)
        then evict fuel c c.cached_blocks s
        else done tt c s in
      elim (find i.block_entry c.cached_blocks) [
        | some e ↦ done i (register_item i c) s
        | none ↦ and_then room λ _ c1 s1.
            and_then (load_block i.block_entry fresh c1 s1)
              λ _ c2 s2. done i (register_item i c2) s2
      ]

  unfoldable pub flush_item : ℕ → BlockCache → S → Outcome S (Unit {0})
  flush_item item c s =
      let base = base_block_item c item in
      elim (find base c.cached_blocks) [
        | none ↦ done tt c s
        | some e ↦
            if e.dirty
            then (let (ok, s') = m.store_items base (items_per_block c) e.data_bytes s in
                if ok
                then done tt (with_blocks c (update base mark_clean c.cached_blocks)) s'
                else failed c s')
            else done tt c s
      ]

  -- The loop of `Flush`, over the blocks that are still to come.
  unfoldable pub flush_blocks : Blocks → BlockCache → S → Outcome S (Unit {0})
  unfolding flush_item
  flush_blocks [] c s = done tt c s
  flush_blocks ((k, e) ∷ rest) c s = and_then (flush_item k c s) λ _ c' s'. flush_blocks rest c' s'

  unfoldable pub flush : BlockCache → S → Outcome S (Unit {0})
  unfolding flush_blocks
  flush c s = if c.skip_flush then done tt c s else flush_blocks c.cached_blocks c s

  unfoldable pub refresh_item : ℕ → BlockCache → S → Outcome S (Unit {0})
  refresh_item item c s =
      let base = base_block_item c item in
      elim (find base c.cached_blocks) [
        | none ↦ done tt c s
        | some e ↦
            let (ok, (bytes, s')) = m.retrieve_items base (items_per_block c) e.data_bytes s in
            let c' =
              with_blocks c
                (update base (λ e'. record e' { data_bytes = bytes }) c.cached_blocks) in
            if ok then done tt c' s' else failed c' s'
      ]
