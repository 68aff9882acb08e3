-- ===== src/Pastra/BlockCache/Init.antt =====
-- `Init`: the sizes of a new cache.
use whais.Prelude.{
  ℕ, ◌-◌, ◌*◌, ◌/◌, ◌%◌, ◌<◌, ◌≤◌, ◌≡◌, refl, inl, inr, Bool, [], max, arith, ltb, if◌then◌else◌,
}
use native.Mathlib.Nat.{div-add-mod', mod-lt, mul-mod_left, mod_self}
use native.Mathlib.Decide.{dec_lt}
use whais.Prelude.Place.{block_le}
use whais.Pastra.BlockCache.{BlockCache, general_control_error, new_block_cache, init}

cut_down : (b i : ℕ) → 0 < i → (b - b % i) % i ≡ 0
cut_down b i pos =
    let e : b - b % i ≡ b / i * i = omega (arith, div-add-mod' b i) in rw e (mul-mod_left (b / i) i)

whole_left : (b i : ℕ) → 0 < i → i ≤ b → i ≤ b - b % i
whole_left b i pos h = elim (dec_lt 0 (b / i)) [
  | yes some ↦ omega (arith, div-add-mod' b i, block_le i 0 (b / i) some)
  | no none_left ↦
      let e : b / i ≡ 0 = omega arith in
      absurd (omega (arith, rw e at (div-add-mod' b i), mod-lt b pos))
]

block_size_of : ℕ → ℕ → ℕ
block_size_of i b = if ltb b i then i else b - b % i

block_size_of-ok :
    (i b : ℕ)
    → 0 < i
    → (block_size_of i b % i ≡ 0) × (i ≤ block_size_of i b) × (block_size_of i b ≤ max i b)
unfolding block_size_of
block_size_of-ok i b pos = ground (arith, cut_down b i pos, whole_left b i pos, mod_self i)

-- `Init` of a new cache with an item size and a number of blocks above 0 returns, with these sizes
-- and no block cached; the size of its blocks is a multiple of the item size, at least the item
-- size and at most the larger of the two sizes given.
pub init_lem :
    (item_size block_size blocks : ℕ) (skip : Bool)
    → 0 < item_size
    → 0 < blocks
    → (c : BlockCache) × (init item_size block_size blocks skip new_block_cache ≡ inr c)
      × (c.item_size ≡ item_size)
      × (c.max_cached_blocks ≡ blocks)
      × (c.skip_flush ≡ skip)
      × (c.cached_blocks ≡ [])
      × (c.block_size % item_size ≡ 0)
      × (item_size ≤ c.block_size)
      × (c.block_size ≤ max item_size block_size)
unfolding init block_size_of
init_lem item_size block_size blocks skip some_size some_blocks =
    let (whole, least, most) = block_size_of-ok item_size block_size some_size in
    (
      record {
        item_size = item_size;
        block_size = block_size_of item_size block_size;
        max_cached_blocks = blocks;
        skip_flush = skip;
        cached_blocks = [];
      },
      ground arith,
      refl,
      refl,
      refl,
      refl,
      whole,
      least,
      most,
    )

-- `Init` of a cache that is set up already is refused.
pub init-again :
    (item_size block_size blocks : ℕ) (skip : Bool) (c : BlockCache)
    → 0 < item_size
    → 0 < blocks
    → 0 < c.item_size
    → init item_size block_size blocks skip c ≡ inl general_control_error
unfolding init
init-again item_size block_size blocks skip c h1 h2 h3 = ground arith
