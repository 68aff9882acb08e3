-- ===== src/Pastra/BlockCache/Coherence.antt =====
-- What a blocks manager promises, the invariant of a cache in front of it, and the bytes that the
-- two stand for together.
use whais.Prelude.{
  ℕ, ◌*◌, ◌/◌, ◌<◌, ◌≤◌, ◌≡◌, true, false, none, some, List, length, take, ◌==◌, if◌then◌else◌,
}
use whais.Pastra.BlockCache.{BlocksManager, BlockEntry, BlockCache, items_per_block, find}
use whais.Pastra.BlockCache.Blocks.{IsOrdered}

-- The manager stores blocks of `per` items, each under the number of its first item. Of a block it
-- knows the first bytes only, `known` of them: the last block can reach past the items there are.
-- What was stored last is what is retrieved.
pub record Laws {S : Type 0} (m : BlocksManager S) (per : ℕ) : Type 1 where
  pub IsReady : S → ℕ → Type 0
  pub known : S → ℕ → ℕ
  pub contents : S → ℕ → List ℕ
  pub store_returns :
      (b : ℕ) (bytes : List ℕ) (s : S) → IsReady s b → (m.store_items b per bytes s).0 ≡ true
  pub store_ready :
      (b : ℕ) (bytes : List ℕ) (s : S) (j : ℕ)
      → IsReady s b
      → IsReady s j
      → IsReady (m.store_items b per bytes s).1 j
  pub store_known :
      (b : ℕ) (bytes : List ℕ) (s : S) (j : ℕ)
      → IsReady s b
      → known (m.store_items b per bytes s).1 j ≡ known s j
  pub store_contents :
      (b : ℕ) (bytes : List ℕ) (s : S) (j : ℕ)
      → IsReady s b
      → contents (m.store_items b per bytes s).1 j
        ≡ (if j == b then take (known s b) bytes else contents s j)
  pub retrieve_returns :
      (b : ℕ) (bytes : List ℕ) (s : S) → IsReady s b → (m.retrieve_items b per bytes s).0 ≡ true
  pub retrieve_bytes :
      (b : ℕ) (bytes : List ℕ) (s : S)
      → IsReady s b
      → take (known s b) (m.retrieve_items b per bytes s).1.0 ≡ contents s b
  pub retrieve_ready :
      (b : ℕ) (bytes : List ℕ) (s : S) (j : ℕ)
      → IsReady s b
      → IsReady s j
      → IsReady (m.retrieve_items b per bytes s).1.1 j
  pub retrieve_known :
      (b : ℕ) (bytes : List ℕ) (s : S) (j : ℕ)
      → IsReady s b
      → known (m.retrieve_items b per bytes s).1.1 j ≡ known s j
  pub retrieve_contents :
      (b : ℕ) (bytes : List ℕ) (s : S) (j : ℕ)
      → IsReady s b
      → contents (m.retrieve_items b per bytes s).1.1 j ≡ contents s j

module _ {S : Type 0} {m : BlocksManager S} {per : ℕ} (laws : Laws m per) where
  -- The bytes of block `b`: those in memory, where it is cached.
  abbrev pub view : BlockCache → S → ℕ → List ℕ
  view c s b = elim (find b c.cached_blocks) [
    | none ↦ laws.contents s b
    | some e ↦ take (laws.known s b) e.data_bytes
  ]

  -- The blocks are in order, begin at multiples of `per` and are ready for the manager, and one that is not dirty holds what the
  -- manager has.
  pub record IsValid (c : BlockCache) (s : S) : Type 0 where
    pub per_block : items_per_block c ≡ per
    pub max_pos : 0 < c.max_cached_blocks
    pub ordered : IsOrdered c.cached_blocks
    pub few : length c.cached_blocks ≤ c.max_cached_blocks
    pub aligned : (k : ℕ) (e : BlockEntry) → find k c.cached_blocks ≡ some e → k / per * per ≡ k
    pub ready : (k : ℕ) (e : BlockEntry) → find k c.cached_blocks ≡ some e → laws.IsReady s k
    pub clean :
        (k : ℕ) (e : BlockEntry)
        → find k c.cached_blocks ≡ some e
        → e.dirty ≡ false
        → take (laws.known s k) e.data_bytes ≡ laws.contents s k

  -- A step that no client sees: every block has the bytes it had.
  pub record Same (c : BlockCache) (s : S) (c' : BlockCache) (s' : S) : Type 0 where
    pub valid : IsValid c' s'
    pub same_view : (b : ℕ) → view c' s' b ≡ view c s b
    pub same_ready : (b : ℕ) → laws.IsReady s b → laws.IsReady s' b
    pub same_known : (b : ℕ) → laws.known s' b ≡ laws.known s b
    pub same_item : c'.item_size ≡ c.item_size
    pub same_block : c'.block_size ≡ c.block_size
    pub same_max : c'.max_cached_blocks ≡ c.max_cached_blocks
