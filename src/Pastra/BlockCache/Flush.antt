-- ===== src/Pastra/BlockCache/Flush.antt =====
-- `Flush`: afterwards the manager has the bytes of every block.
use whais.Prelude.{
  ℕ, ◌≡◌, refl, ap, sym, ◌∙◌, ◌⊎◌, inl, inr, true, false, some, [], ◌∷◌, arith, if◌then◌else◌,
}
use native.Mathlib.Decide.{ℕ_discrete}
use whais.Pastra.BlockCache.{
  BlocksManager, BlockEntry, Blocks, BlockCache, done, with_blocks, base_block_item, mark_clean,
  find, update, flush_item, flush_blocks, flush,
}
use whais.Pastra.BlockCache.Blocks.{IsOrdered, find-update, found-update}
use whais.Pastra.BlockCache.Coherence.{Laws, view, IsValid, Same}
use whais.Pastra.BlockCache.Blocks.{some_or_none}
use whais.Pastra.BlockCache.Steps.{dirty_or_clean, change-Same, Same-trans}

module _ {S : Type 0} {m : BlocksManager S} {per : ℕ} (laws : Laws m per) where
  -- `FlushItem` of a cached block: it is clean afterwards, and the others are as they were.
  record Flushed (k : ℕ) (c : BlockCache) (s : S) (c' : BlockCache) (s' : S) : Type 0 where
    same : Same laws c s c' s'
    others : (j : ℕ) → ¬ (j ≡ k) → find j c'.cached_blocks ≡ find j c.cached_blocks
    clean : (e : BlockEntry) → find k c'.cached_blocks ≡ some e → e.dirty ≡ false
    cached :
        (j : ℕ) (e' : BlockEntry)
        → find j c'.cached_blocks ≡ some e'
        → (e : BlockEntry) × (find j c.cached_blocks ≡ some e)
    already :
        (j : ℕ)
        → ((e : BlockEntry) → find j c.cached_blocks ≡ some e → e.dirty ≡ false)
        → (e : BlockEntry) → find j c'.cached_blocks ≡ some e
        → e.dirty ≡ false

  Same-refl : (c : BlockCache) (s : S) → IsValid laws c s → Same laws c s c s
  Same-refl c s v = record {
    valid = v;
    same_view = λ b. refl;
    same_ready = λ b r. r;
    same_known = λ b. refl;
    same_item = refl;
    same_block = refl;
    same_max = refl;
  }

  flush_item-clean :
      (k : ℕ) (e : BlockEntry) (c : BlockCache) (s : S)
      → IsValid laws c s
      → find k c.cached_blocks ≡ some e
      → e.dirty ≡ false
      → (flush_item m k c s ≡ done tt c s) × Flushed k c s c s
  unfolding flush_item
  flush_item-clean k e c s v here clean =
      let aligned : base_block_item c k ≡ k = rw v.per_block (v.aligned k e here) in
      (
        rw (aligned, here, flush_item, clean) refl,
        record {
          same = Same-refl c s v;
          others = λ j other. refl;
          clean = λ d h. ground (arith, here);
          cached = λ j d h. (d, h);
          already = λ j clean'. clean';
        },
      )

  flush_item-dirty :
      (k : ℕ) (e : BlockEntry) (c : BlockCache) (s : S)
      → IsValid laws c s
      → find k c.cached_blocks ≡ some e
      → e.dirty ≡ true
      → (flush_item m k c s
          ≡ done tt
              (with_blocks c (update k mark_clean c.cached_blocks))
              (m.store_items k per e.data_bytes s).1)
        × Flushed k c s
            (with_blocks c (update k mark_clean c.cached_blocks))
            (m.store_items k per e.data_bytes s).1
  unfolding flush_item
  flush_item-dirty k e c s v here dirty =
      let ready = v.ready k e here in
      let aligned : base_block_item c k ≡ k = rw v.per_block (v.aligned k e here) in
      (
        rw
            (
              aligned,
              here,
              flush_item,
              dirty,
              v.per_block,
              v.aligned k e here,
              laws.store_returns k e.data_bytes s ready,
            )
            refl,
        record {
          same =
              change-Same laws k mark_clean e c s _ v here refl
                (λ h. ground (arith, laws.store_contents k e.data_bytes s k ready))
                (λ j r. laws.store_ready k e.data_bytes s j ready r)
                (λ j. laws.store_known k e.data_bytes s j ready)
                (λ j other. ground (arith, laws.store_contents k e.data_bytes s j ready));
          others = λ j other. ground (arith, find-update k j mark_clean c.cached_blocks);
          clean = λ d h. ground (arith, here, find-update k k mark_clean c.cached_blocks);
          cached = λ j d h. elim (found-update k j mark_clean c.cached_blocks e d here h) [
            | inl (same, eq) ↦ (e, rw same here)
            | inr (other, h') ↦ (d, h')
          ];
          already = λ j clean' d h. elim (found-update k j mark_clean c.cached_blocks e d here h) [
            | inl (same, eq) ↦ rw eq refl
            | inr (other, h') ↦ clean' d h'
          ];
        },
      )

  -- All the blocks of the list `todo` are clean, and those that were.
  record Done (todo : Blocks) (c : BlockCache) (s : S) (c' : BlockCache) (s' : S) : Type 0 where
    same : Same laws c s c' s'
    cached :
        (j : ℕ) (e' : BlockEntry)
        → find j c'.cached_blocks ≡ some e'
        → (e : BlockEntry) × (find j c.cached_blocks ≡ some e)
    clean :
        (j : ℕ) (d e : BlockEntry)
        → find j todo ≡ some d
        → find j c'.cached_blocks ≡ some e
        → e.dirty ≡ false
    already :
        (j : ℕ)
        → ((e : BlockEntry) → find j c.cached_blocks ≡ some e → e.dirty ≡ false)
        → (e : BlockEntry) → find j c'.cached_blocks ≡ some e
        → e.dirty ≡ false

  flush_item-Flushed :
      (k : ℕ) (e : BlockEntry) (c : BlockCache) (s : S)
      → IsValid laws c s
      → find k c.cached_blocks ≡ some e
      → (c' : BlockCache) × (s' : S) × (flush_item m k c s ≡ done tt c' s') × Flushed k c s c' s'
  flush_item-Flushed k e c s v here = elim (dirty_or_clean e.dirty) [
    | inl clean ↦ let (eq, f) = flush_item-clean k e c s v here clean in (c, s, eq, f)
    | inr dirty ↦ let (eq, f) = flush_item-dirty k e c s v here dirty in (_, _, eq, f)
  ]

  in_rest :
      (j k : ℕ) (d e : BlockEntry) (rest : Blocks)
      → find j ((k, e) ∷ rest) ≡ some d
      → (j ≡ k) ⊎ (find j rest ≡ some d)
  unfolding find
  in_rest j k d e rest h = elim (ℕ_discrete j k) [
    | yes same ↦ inl same
    | no other ↦ inr (ground arith)
  ]

  Done-cons :
      (k : ℕ) (d : BlockEntry) (rest : Blocks) (c c1 c2 : BlockCache) (s s1 s2 : S)
      → Flushed k c s c1 s1
      → Done rest c1 s1 c2 s2
      → Done ((k, d) ∷ rest) c s c2 s2
  Done-cons k d rest c c1 c2 s s1 s2 f r = record {
    same = Same-trans laws f.same r.same;
    cached = λ j e h. let (e1, h1) = r.cached j e h in f.cached j e1 h1;
    clean = λ j d' e h h'. elim (in_rest j k d' d rest h) [
      | inl first ↦ r.already j (λ e1 h1. f.clean e1 (rw first at h1)) e h'
      | inr later ↦ r.clean j d' e later h'
    ];
    already = λ j clean e h. r.already j (f.already j clean) e h;
  }

  flush_blocks-Done :
      (todo : Blocks) (c : BlockCache) (s : S)
      → IsValid laws c s
      → ((j : ℕ) (d : BlockEntry)
          → find j todo ≡ some d
          → (e : BlockEntry) × (find j c.cached_blocks ≡ some e))
      → IsOrdered todo
      → (c' : BlockCache) × (s' : S) × (flush_blocks m todo c s ≡ done tt c' s')
        × Done todo c s c' s'
  unfolding flush_blocks find IsOrdered
  flush_blocks-Done [] c s v known o = (
    c,
    s,
    refl,
    record {
      same = Same-refl c s v;
      cached = λ j d h. (d, h);
      clean = λ j d e h. absurd (ground arith);
      already = λ j h. h;
    },
  )
  flush_blocks-Done ((k, e) ∷ rest) c s v known (low, o) =
      let (d, here) = known k e (ground arith) in
      let (c1, s1, e1, f) = flush_item-Flushed k d c s v here in
      let still : (j : ℕ) (d1 : BlockEntry)
          → find j rest ≡ some d1
          → (d2 : BlockEntry) × (find j c1.cached_blocks ≡ some d2) =
        λ j d1 h.
          let other : ¬ (j ≡ k) = λ same. absurd (ground (arith, low j)) in
          let (d2, h2) = known j d1 (ground arith) in (d2, f.others j other ∙ h2) in
      let (c2, s2, e2, r) = flush_blocks-Done rest c1 s1 f.same.valid still o in
      (c2, s2, rw e1 e2, Done-cons k e rest c c1 c2 s s1 s2 f r)

  -- Without dirty blocks the manager has all the bytes.
  stored_view :
      (c : BlockCache) (s : S)
      → IsValid laws c s
      → ((j : ℕ) (e : BlockEntry) → find j c.cached_blocks ≡ some e → e.dirty ≡ false)
      → (j : ℕ) → view laws c s j ≡ laws.contents s j
  stored_view c s v clean j = elim (some_or_none (find j c.cached_blocks)) [
    | inl (e, here) ↦ rw (here, view) (v.clean j e here (clean j e here))
    | inr absent ↦ rw (absent, view) refl
  ]

  -- In front of a manager that keeps its promises, on a valid cache that is to be stored: `Flush`
  -- returns and leaves the cache valid, with no dirty block, and with the bytes of every block as
  -- they were; and these are the bytes that the manager now has.
  pub flush_lem :
      (c : BlockCache) (s : S)
      → IsValid laws c s
      → c.skip_flush ≡ false
      → (c' : BlockCache) × (s' : S) × (flush m c s ≡ done tt c' s')
        × Same laws c s c' s'
        × ((j : ℕ) (e : BlockEntry) → find j c'.cached_blocks ≡ some e → e.dirty ≡ false)
        × ((j : ℕ) → laws.contents s' j ≡ view laws c s j)
  unfolding flush
  flush_lem c s v kept =
      let (c', s', e, r) = flush_blocks-Done c.cached_blocks c s v (λ j d h. (d, h)) v.ordered in
      let clean = λ (j : ℕ) (d : BlockEntry) (h : find j c'.cached_blocks ≡ some d).
        let (d0, h0) = r.cached j d h in r.clean j d0 d h0 h in
      (
        c',
        s',
        ap (λ skip. if skip then done tt c s else flush_blocks m c.cached_blocks c s) kept ∙ e,
        r.same,
        clean,
        λ j. sym (stored_view c' s' r.same.valid clean j) ∙ r.same.same_view j,
      )
