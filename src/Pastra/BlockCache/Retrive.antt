-- ===== src/Pastra/BlockCache/Retrive.antt =====
-- `RetriveItem`: a block comes into the cache, and perhaps another one leaves it, with no change to
-- the bytes that the cache stands for.
use whais.Prelude.{
  ℕ, suc, ◌+◌, ◌^◌, ◌%◌, ◌/◌, ◌*◌, ◌<◌, ◌≤◌, ◌≡◌, refl, ap, ◌∙◌, inl, inr, true, false, none, some,
  List, [], ◌∷◌, length, arith, leb, ◌==◌, if◌then◌else◌,
}
use native.Mathlib.Decide.{dec_lt}
use native.Mathlib.Nat.{mul-div_cancel}
use whais.Pastra.BlockCache.{
  BlocksManager, BlockEntry, Blocks, BlockCache, done, with_blocks, base_block_item, new_item,
  is_in_use, register_user, register_item, find, update, evict, load_block, retrive_item,
}
use whais.Pastra.BlockCache.Blocks.{find-update, some_or_none}
use whais.Pastra.BlockCache.Coherence.{Laws, IsValid, Same}
use whais.Pastra.BlockCache.Steps.{
  tail, head, rest_few, evict-Same, got, after, loaded, find-loaded, load_block-done, loaded-Same,
  register-Same, Same-trans,
}

twice_aligned : (i n : ℕ) → i / n * n / n * n ≡ i / n * n
twice_aligned i n = elim (dec_lt 0 n) [
  | yes pos ↦ ap (λ q. q * n) (mul-div_cancel (i / n) pos)
  | no flat ↦ let e : n ≡ 0 = omega arith in rw e (omega arith)
]

-- How many use the block of key `k`.
abbrev pub users : BlockCache → ℕ → ℕ
users c k = elim (find k c.cached_blocks) [ none ↦ 0 | some e ↦ e.reference_count ]

-- Room can be made: the first block, if there is one, is not in use.
unfoldable pub HasFreeFirst : Blocks → Type 0
HasFreeFirst [] = Unit {0}
HasFreeFirst ((k, e) ∷ rest) = is_in_use e ≡ false

module _ {S : Type 0} {m : BlocksManager S} {per : ℕ} (laws : Laws m per) where
  -- The block `base` is cached with one more user, and whatever was in use stays where it was.
  pub record Retrived (base : ℕ) (c : BlockCache) (s : S) (c' : BlockCache) (s' : S) : Type 0 where
    pub same : Same laws c s c' s'
    pub cached :
        (e : BlockEntry) × (find base c'.cached_blocks ≡ some e)
        × (e.reference_count ≡ (users c base + 1) % 2 ^ 32)
    pub kept :
        (j : ℕ) (e : BlockEntry)
        → find j c.cached_blocks ≡ some e
        → is_in_use e ≡ true
        → find j c'.cached_blocks ≡ some (if j == base then register_user e else e)

  registered :
      (base : ℕ) (e : BlockEntry) (c : BlockCache) (s : S)
      → IsValid laws c s
      → find base c.cached_blocks ≡ some e
      → Retrived base c s (with_blocks c (update base register_user c.cached_blocks)) s
  registered base e c s v here = record {
    same = register-Same laws base e c s v here;
    cached = (
      register_user e,
      ground (arith, find-update base base register_user c.cached_blocks),
      rw (here, users) refl,
    );
    kept = λ j d h used. ground (arith, find-update base j register_user c.cached_blocks);
  }

  -- A hit.
  retrive_item-hit :
      (fuel item : ℕ) (fresh : List ℕ) (e : BlockEntry) (c : BlockCache) (s : S)
      → find (base_block_item c item) c.cached_blocks ≡ some e
      → retrive_item m fuel fresh item c s
        ≡ done
            (new_item c item)
            (with_blocks c (update (base_block_item c item) register_user c.cached_blocks))
            s
  unfolding retrive_item register_item
  retrive_item-hit fuel item fresh e c s here = rw (here, retrive_item) refl

  -- A miss, once there is room.
  retrive_item-miss :
      (fuel item : ℕ) (fresh : List ℕ) (c c2 : BlockCache) (s s2 : S)
      → find (base_block_item c item) c.cached_blocks ≡ none
      → length c.cached_blocks < c.max_cached_blocks
      → load_block m (base_block_item c item) fresh c s ≡ done tt c2 s2
      → retrive_item m fuel fresh item c s
        ≡ done
            (new_item c item)
            (with_blocks c2 (update (base_block_item c item) register_user c2.cached_blocks))
            s2
  unfolding retrive_item register_item
  retrive_item-miss fuel item fresh c c2 s s2 absent room e =
      let free : leb c.max_cached_blocks (length c.cached_blocks) ≡ false = ground arith in
      rw (absent, retrive_item, free, e) refl

  retrive_item-full :
      (fuel item : ℕ) (fresh : List ℕ) (c c1 c2 : BlockCache) (s s1 s2 : S)
      → find (base_block_item c item) c.cached_blocks ≡ none
      → c.max_cached_blocks ≤ length c.cached_blocks
      → evict m fuel c c.cached_blocks s ≡ done tt c1 s1
      → load_block m (base_block_item c item) fresh c1 s1 ≡ done tt c2 s2
      → retrive_item m fuel fresh item c s
        ≡ done
            (new_item c item)
            (with_blocks c2 (update (base_block_item c item) register_user c2.cached_blocks))
            s2
  unfolding retrive_item register_item
  retrive_item-full fuel item fresh c c1 c2 s s1 s2 absent full e1 e2 =
      let over : leb c.max_cached_blocks (length c.cached_blocks) ≡ true = ground arith in
      rw (absent, retrive_item, over, e1, e2) refl

  -- The block is loaded into a cache with room, and gets its first user.
  loaded-Retrived :
      (base : ℕ) (fresh : List ℕ) (c : BlockCache) (s : S)
      → IsValid laws c s
      → laws.IsReady s base
      → base / per * per ≡ base
      → find base c.cached_blocks ≡ none
      → length c.cached_blocks < c.max_cached_blocks
      → (c' : BlockCache) × (s' : S) × (load_block m base fresh c s ≡ done tt c' s')
        × Retrived base c s (with_blocks c' (update base register_user c'.cached_blocks)) s'
  loaded-Retrived base fresh c s v ready aligned absent room =
      let same = loaded-Same laws base fresh c s v ready aligned absent room in
      let blocks = loaded laws base fresh c s v ready aligned absent room in
      let new : BlockEntry = record {
        data_bytes = got laws base fresh c s v ready aligned absent room;
        reference_count = 0;
        dirty = false;
      } in
      let there : find base blocks ≡ some new =
        ground (arith, find-loaded laws base fresh c s v ready aligned absent room base) in
      let r = registered base new (with_blocks c blocks) _ same.valid there in
      (
        with_blocks c blocks,
        after laws base fresh c s v ready aligned absent room,
        load_block-done laws base fresh c s v ready aligned absent room,
        record {
          same = Same-trans laws same r.same;
          cached = (
            register_user new,
            ground (arith, there, find-update base base register_user blocks),
            ground (arith, absent),
          );
          kept = λ j e h used. ground (
            arith,
            absent,
            find-loaded laws base fresh c s v ready aligned absent room j,
            find-update base j register_user blocks,
          );
        },
      )

  base-aligned :
      (item : ℕ) (c : BlockCache) {s : S}
      → IsValid laws c s
      → base_block_item c item / per * per ≡ base_block_item c item
  base-aligned item c v = rw v.per_block (twice_aligned item per)

  -- What an eviction leaves for the block that comes in next.
  evicted-Retrived :
      (base : ℕ) (c c' : BlockCache) (s s1 s' : S) (k : ℕ) (e : BlockEntry) (rest : Blocks)
      → c.cached_blocks ≡ (k, e) ∷ rest
      → is_in_use e ≡ false
      → ((j : ℕ) → find j rest ≡ (if j == k then none else find j c.cached_blocks))
      → find k c.cached_blocks ≡ some e
      → find base c.cached_blocks ≡ none
      → Same laws c s (with_blocks c rest) s1
      → Retrived base (with_blocks c rest) s1 c' s'
      → Retrived base c s c' s'
  evicted-Retrived base c c' s s1 s' k e rest first unused tail head absent same r = record {
    same = Same-trans laws same r.same;
    cached = (r.cached.0, r.cached.1, r.cached.2 ∙ ground (arith, tail base, absent));
    kept = λ j d h used. r.kept j d (ground (arith, tail j, head)) used;
  }

  retrive-full :
      (fuel item : ℕ) (fresh : List ℕ) (c : BlockCache) (s : S) (blocks : Blocks)
      → c.cached_blocks ≡ blocks
      → IsValid laws c s
      → laws.IsReady s (base_block_item c item)
      → HasFreeFirst blocks
      → find (base_block_item c item) c.cached_blocks ≡ none
      → c.max_cached_blocks ≤ length c.cached_blocks
      → (c' : BlockCache) × (s' : S) × (retrive_item m (suc fuel) fresh item c s
          ≡ done (new_item c item) c' s')
        × Retrived (base_block_item c item) c s c' s'
  unfolding HasFreeFirst
  retrive-full fuel item fresh c s [] first v ready free absent full =
      let empty : length c.cached_blocks ≡ 0 = rw first refl in absurd (omega (arith, v.max_pos))
  retrive-full fuel item fresh c s ((k, e) ∷ rest) first v ready free absent full =
      let base = base_block_item c item in
      let (s1, e1, same) = evict-Same laws c s k e rest v first fuel free in
      let at = tail laws c s k e rest v first in
      let (c2, s2, e2, r) =
        loaded-Retrived base fresh (with_blocks c rest) s1 same.valid (same.same_ready base ready)
          (base-aligned item c v) (ground (arith, at base, absent))
          (rest_few laws c s k e rest v first) in
      (
        with_blocks c2 (update base register_user c2.cached_blocks),
        s2,
        retrive_item-full (suc fuel) item fresh c (with_blocks c rest) c2 s s1 s2 absent full
            (ap (λ (b : Blocks). evict m (suc fuel) c b s) first ∙ e1) e2,
        evicted-Retrived base c _ s s1 s2 k e rest first free at (head laws c s k e rest v first)
            absent same r,
      )

  -- In front of a manager that keeps its promises, on a valid cache, for an item that the manager
  -- is ready for, with the first cached block not in use: `RetriveItem` returns the item, whose
  -- block is cached with one more user; the cache stays valid and every block has the bytes it
  -- had; and every block that is in use stays cached, with its bytes and its users.
  pub retrive_item_lem :
      (fuel item : ℕ) (fresh : List ℕ) (c : BlockCache) (s : S)
      → IsValid laws c s
      → laws.IsReady s (base_block_item c item)
      → HasFreeFirst c.cached_blocks
      → (c' : BlockCache) × (s' : S) × (retrive_item m (suc fuel) fresh item c s
          ≡ done (new_item c item) c' s')
        × Retrived (base_block_item c item) c s c' s'
  retrive_item_lem fuel item fresh c s v ready free =
      let base = base_block_item c item in
      elim (some_or_none (find base c.cached_blocks)) [
        | inl (e, here) ↦ (
          with_blocks c (update base register_user c.cached_blocks),
          s,
          retrive_item-hit (suc fuel) item fresh e c s here,
          registered base e c s v here,
        )
        | inr absent ↦ elim (dec_lt (length c.cached_blocks) c.max_cached_blocks) [
          | yes room ↦
              let (c2, s2, e2, r) =
                loaded-Retrived base fresh c s v ready (base-aligned item c v) absent room in
              (
                with_blocks c2 (update base register_user c2.cached_blocks),
                s2,
                retrive_item-miss (suc fuel) item fresh c c2 s s2 absent room e2,
                r,
              )
          | no full ↦
              retrive-full fuel item fresh c s c.cached_blocks refl v ready free absent
                (omega arith)
        ]
      ]
