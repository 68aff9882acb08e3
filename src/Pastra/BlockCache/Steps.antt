-- ===== src/Pastra/BlockCache/Steps.antt =====
-- The two steps by which `RetriveItem` makes a block available: the first block leaves the cache,
-- and the one that is wanted comes in.
use whais.Prelude.{
  ℕ, suc, ◌/◌, ◌*◌, ◌<◌, ◌≡◌, refl, ap, ◌∙◌, Bool, true, false, none, some, List, ◌∷◌, length, take,
  inl, inr, ◌⊎◌, arith, ltb, ◌==◌, if◌then◌else◌,
}
use native.Mathlib.Decide.{ℕ_discrete}
use whais.Pastra.BlockCache.{
  BlocksManager, BlockEntry, Blocks, BlockCache, done, with_blocks, is_in_use, register_user, find,
  insert, update, evict, load_block,
}
use whais.Pastra.BlockCache.Blocks.{
  IsOrdered, find-update, find-insert, find-tail, length-update, length-insert, IsOrdered-update,
  IsOrdered-insert, found-update,
}
use whais.Pastra.BlockCache.Coherence.{Laws, IsValid, Same}

pub dirty_or_clean : (b : Bool) → (b ≡ false) ⊎ (b ≡ true)
dirty_or_clean false = inl refl
dirty_or_clean true = inr refl

module _ {S : Type 0} {m : BlocksManager S} {per : ℕ} (laws : Laws m per) where
  module _ (c : BlockCache) (s : S) (k : ℕ) (e : BlockEntry) (rest : Blocks) (v : IsValid laws c s)
      (first : c.cached_blocks ≡ (k, e) ∷ rest) where
    pub tail : (j : ℕ) → find j rest ≡ (if j == k then none else find j c.cached_blocks)
    tail j = rw first (find-tail k j e rest (rw first at v.ordered))

    pub head : find k c.cached_blocks ≡ some e
    unfolding find
    head = rw first (ground arith)

    pub rest_few : length rest < c.max_cached_blocks
    rest_few = let n = ap (λ (b : Blocks). length b) first in omega (arith, n, v.few)

    -- The block is forgotten, where the manager has its bytes.
    forget :
        (s' : S)
        → ((j : ℕ) → laws.IsReady s j → laws.IsReady s' j)
        → ((j : ℕ) → laws.known s' j ≡ laws.known s j)
        → ((j : ℕ)
            → laws.contents s' j
              ≡ (if j == k then take (laws.known s k) e.data_bytes else laws.contents s j))
        → Same laws c s (with_blocks c rest) s'
    unfolding IsOrdered
    forget s' ready known contents = record {
      valid = record {
        per_block = v.per_block;
        max_pos = v.max_pos;
        ordered = (rw first at v.ordered).1;
        few = omega (arith, rest_few);
        aligned = λ j d h. v.aligned j d (ground (arith, tail j));
        ready = λ j d h. ready j (v.ready j d (ground (arith, tail j)));
        clean = λ j d h clean. ground (arith, tail j, v.clean j d, known j, contents j);
      };
      same_view = λ j. ground (arith, tail j, head, known j, contents j);
      same_ready = ready;
      same_known = known;
      same_item = refl;
      same_block = refl;
      same_max = refl;
    }

    -- The first block leaves, when nobody uses it.
    pub evict-Same :
        (fuel : ℕ)
        → is_in_use e ≡ false
        → (s' : S) × (evict m (suc fuel) c ((k, e) ∷ rest) s ≡ done tt (with_blocks c rest) s')
          × Same laws c s (with_blocks c rest) s'
    unfolding evict
    evict-Same fuel unused =
        let fits : ltb (length rest) c.max_cached_blocks ≡ true = ground (arith, rest_few) in
        let ready = v.ready k e head in
        elim (dirty_or_clean e.dirty) [
          | inl clean ↦ (
            s,
            rw (unused, clean, fits) refl,
            forget s (λ j r. r) (λ j. refl) (λ j. ground (arith, v.clean k e head clean)),
          )
          | inr dirty ↦ (
            (m.store_items k per e.data_bytes s).1,
            rw (unused, dirty, v.per_block, laws.store_returns k e.data_bytes s ready, fits) refl,
            forget _ (λ j r. laws.store_ready k e.data_bytes s j ready r)
                (λ j. laws.store_known k e.data_bytes s j ready)
                (λ j. laws.store_contents k e.data_bytes s j ready),
          )
        ]

  module _ (base : ℕ) (fresh : List ℕ) (c : BlockCache) (s : S) (v : IsValid laws c s)
      (ready : laws.IsReady s base) (aligned : base / per * per ≡ base)
      (absent : find base c.cached_blocks ≡ none)
      (room : length c.cached_blocks < c.max_cached_blocks) where
    abbrev pub got : List ℕ
    got = (m.retrieve_items base per fresh s).1.0

    abbrev pub after : S
    after = (m.retrieve_items base per fresh s).1.1

    abbrev pub loaded : Blocks
    loaded =
        update base (λ e. record e { data_bytes = got })
          (insert base (record { data_bytes = fresh; reference_count = 0; dirty = false })
            c.cached_blocks)

    pub find-loaded :
        (j : ℕ)
        → find j loaded ≡ (
            if j == base
            then some (record { data_bytes = got; reference_count = 0; dirty = false })
            else find j c.cached_blocks)
    find-loaded j = ground (
      arith,
      find-update base j (λ e. record e { data_bytes = got })
          (insert base (record { data_bytes = fresh; reference_count = 0; dirty = false })
            c.cached_blocks),
      find-insert base j (record { data_bytes = fresh; reference_count = 0; dirty = false })
          c.cached_blocks v.ordered absent,
      find-insert base base (record { data_bytes = fresh; reference_count = 0; dirty = false })
          c.cached_blocks v.ordered absent,
    )

    pub load_block-done : load_block m base fresh c s ≡ done tt (with_blocks c loaded) after
    unfolding load_block
    load_block-done = rw (v.per_block, laws.retrieve_returns base fresh s ready) refl

    pub loaded-Same : Same laws c s (with_blocks c loaded) after
    loaded-Same = record {
      valid = record {
        per_block = v.per_block;
        max_pos = v.max_pos;
        ordered =
            IsOrdered-update base _ _ (IsOrdered-insert base _ c.cached_blocks v.ordered absent);
        few = omega (
          arith,
          length-update base (λ e. record e { data_bytes = got })
              (insert base (record { data_bytes = fresh; reference_count = 0; dirty = false })
                c.cached_blocks),
          length-insert base (record { data_bytes = fresh; reference_count = 0; dirty = false })
              c.cached_blocks,
        );
        aligned = λ j d h. elim (ℕ_discrete j base) [
          | yes e ↦ rw e aligned
          | no other ↦ v.aligned j d (ground (arith, find-loaded j))
        ];
        ready = λ j d h. elim (ℕ_discrete j base) [
          | yes e ↦ rw e (laws.retrieve_ready base fresh s base ready ready)
          | no other ↦
              laws.retrieve_ready base fresh s j ready (v.ready j d (ground (arith, find-loaded j)))
        ];
        clean = λ j d h clean. ground (
          arith,
          find-loaded j,
          v.clean j d,
          laws.retrieve_known base fresh s j ready,
          laws.retrieve_contents base fresh s j ready,
          laws.retrieve_bytes base fresh s ready,
        );
      };
      same_view = λ j. ground (
        arith,
        absent,
        find-loaded j,
        laws.retrieve_known base fresh s j ready,
        laws.retrieve_contents base fresh s j ready,
        laws.retrieve_bytes base fresh s ready,
      );
      same_ready = λ j r. laws.retrieve_ready base fresh s j ready r;
      same_known = λ j. laws.retrieve_known base fresh s j ready;
      same_item = refl;
      same_block = refl;
      same_max = refl;
    }

  -- A cached entry changes, and perhaps the manager gets its bytes.
  pub change-Same :
      (k : ℕ) (f : BlockEntry → BlockEntry) (e : BlockEntry) (c : BlockCache) (s s' : S)
      → IsValid laws c s
      → find k c.cached_blocks ≡ some e
      → (f e).data_bytes ≡ e.data_bytes
      → ((f e).dirty ≡ false → take (laws.known s k) e.data_bytes ≡ laws.contents s' k)
      → ((j : ℕ) → laws.IsReady s j → laws.IsReady s' j)
      → ((j : ℕ) → laws.known s' j ≡ laws.known s j)
      → ((j : ℕ) → ¬ (j ≡ k) → laws.contents s' j ≡ laws.contents s j)
      → Same laws c s (with_blocks c (update k f c.cached_blocks)) s'
  change-Same k f e c s s' v here bytes stored ready known others = record {
    valid = record {
      per_block = v.per_block;
      max_pos = v.max_pos;
      ordered = IsOrdered-update k f c.cached_blocks v.ordered;
      few = omega (arith, v.few, length-update k f c.cached_blocks);
      aligned = λ j d h. elim (found-update k j f c.cached_blocks e d here h) [
        | inl (same, eq) ↦ rw same (v.aligned k e here)
        | inr (other, h') ↦ v.aligned j d h'
      ];
      ready = λ j d h. elim (found-update k j f c.cached_blocks e d here h) [
        | inl (same, eq) ↦ ready j (rw same (v.ready k e here))
        | inr (other, h') ↦ ready j (v.ready j d h')
      ];
      clean = λ j d h clean. elim (found-update k j f c.cached_blocks e d here h) [
        | inl (same, eq) ↦ rw (same, eq, bytes, known k) (stored (rw eq at clean))
        | inr (other, h') ↦ rw (known j, others j other) (v.clean j d h' clean)
      ];
    };
    same_view = λ j. elim (ℕ_discrete j k) [
      | yes same ↦
          let now : find j (update k f c.cached_blocks) ≡ some (f e) =
            ground (arith, find-update k j f c.cached_blocks) in
          let was : find j c.cached_blocks ≡ some e = rw same here in
          ground (arith, now, was, bytes, known j)
      | no other ↦
          let now : find j (update k f c.cached_blocks) ≡ find j c.cached_blocks =
            ground (arith, find-update k j f c.cached_blocks) in
          ground (arith, now, known j, others j other)
    ];
    same_ready = ready;
    same_known = known;
    same_item = refl;
    same_block = refl;
    same_max = refl;
  }

  -- A client is added to the users of a block.
  pub register-Same :
      (k : ℕ) (e : BlockEntry) (c : BlockCache) (s : S)
      → IsValid laws c s
      → find k c.cached_blocks ≡ some e
      → Same laws c s (with_blocks c (update k register_user c.cached_blocks)) s
  register-Same k e c s v here =
      change-Same k register_user e c s s v here refl (λ clean. v.clean k e here clean) (λ j r. r)
        (λ j. refl) (λ j other. refl)

  pub Same-trans :
      {c c1 c2 : BlockCache} {s s1 s2 : S}
      → Same laws c s c1 s1
      → Same laws c1 s1 c2 s2
      → Same laws c s c2 s2
  Same-trans p q = record {
    valid = q.valid;
    same_view = λ b. q.same_view b ∙ p.same_view b;
    same_ready = λ b r. q.same_ready b (p.same_ready b r);
    same_known = λ b. q.same_known b ∙ p.same_known b;
    same_item = q.same_item ∙ p.same_item;
    same_block = q.same_block ∙ p.same_block;
    same_max = q.same_max ∙ p.same_max;
  }
