-- ===== src/Pastra/BlockCache/Blocks.antt =====
-- The map of the cached blocks: what its operations leave at each key, and their order.
use whais.Prelude.{
  ℕ, ◌+◌, ◌≤◌, ◌≡◌, ◌⊎◌, inl, inr, refl, Option, none, some, [], ◌∷◌, length, arith, ◌==◌,
  if◌then◌else◌,
}
use native.Mathlib.Decide.{dec_lt, ℕ_discrete}
use whais.Pastra.BlockCache.{BlockEntry, Blocks, find, insert, update}

-- The keys grow.
unfoldable pub IsOrdered : Blocks → Type 0
IsOrdered [] = Unit {0}
IsOrdered ((k, e) ∷ rest) = ((j : ℕ) → j ≤ k → find j rest ≡ none) × IsOrdered rest

pub find-update :
    (k j : ℕ) (f : BlockEntry → BlockEntry) (b : Blocks)
    → find j (update k f b)
      ≡ (if j == k then elim (find k b) [ none ↦ none | some e ↦ some (f e) ] else find j b)
unfolding find update
find-update k j f [] = ground arith
find-update k j f ((k', e) ∷ rest) = ground (arith, find-update k j f rest)

pub find-insert :
    (k j : ℕ) (e : BlockEntry) (b : Blocks)
    → IsOrdered b
    → find k b ≡ none
    → find j (insert k e b) ≡ (if j == k then some e else find j b)
unfolding find insert IsOrdered
find-insert k j e [] o h = ground arith
find-insert k j e ((k', e') ∷ rest) o h = ground (arith, find-insert k j e rest o.1)

pub length-update :
    (k : ℕ) (f : BlockEntry → BlockEntry) (b : Blocks) → length (update k f b) ≡ length b
unfolding update
length-update k f [] = refl
length-update k f ((k', e) ∷ rest) = ground (arith, length-update k f rest)

pub length-insert : (k : ℕ) (e : BlockEntry) (b : Blocks) → length (insert k e b) ≤ length b + 1
unfolding insert
length-insert k e [] = omega arith
length-insert k e ((k', e') ∷ rest) = ground (arith, length-insert k e rest)

pub IsOrdered-update :
    (k : ℕ) (f : BlockEntry → BlockEntry) (b : Blocks) → IsOrdered b → IsOrdered (update k f b)
unfolding update IsOrdered
IsOrdered-update k f [] o = o
IsOrdered-update k f ((k', e) ∷ rest) (low, o) = elim (ℕ_discrete k k') [
  | yes same ↦
      let step : update k f ((k', e) ∷ rest) ≡ (k', f e) ∷ rest = ground arith in rw step (low, o)
  | no other ↦
      let step : update k f ((k', e) ∷ rest) ≡ (k', e) ∷ update k f rest = ground arith in
      rw step
        ((λ j h. ground (arith, find-update k j f rest, low j h)), IsOrdered-update k f rest o)
]

pub IsOrdered-insert :
    (k : ℕ) (e : BlockEntry) (b : Blocks) → IsOrdered b → find k b ≡ none → IsOrdered (insert k e b)
unfolding insert IsOrdered find
IsOrdered-insert k e [] o h = ((λ j hj. refl), tt)
IsOrdered-insert k e ((k', e') ∷ rest) (low, o) h = elim (dec_lt k k') [
  | yes before ↦
      let step : insert k e ((k', e') ∷ rest) ≡ (k, e) ∷ (k', e') ∷ rest = ground arith in
      rw step ((λ j hj. ground (arith, low j)), (low, o))
  | no behind ↦
      let step : insert k e ((k', e') ∷ rest) ≡ (k', e') ∷ insert k e rest = ground arith in
      let absent : find k rest ≡ none = ground arith in
      rw step (
        (λ j hj. ground (arith, find-insert k j e rest o absent, low j)),
        IsOrdered-insert k e rest o absent,
      )
]

-- The first block is the one that is erased.
pub find-tail :
    (k j : ℕ) (e : BlockEntry) (rest : Blocks)
    → IsOrdered ((k, e) ∷ rest)
    → find j rest ≡ (if j == k then none else find j ((k, e) ∷ rest))
unfolding find IsOrdered
find-tail k j e rest (low, o) = ground (arith, low j)

pub some_or_none : (o : Option BlockEntry) → ((e : BlockEntry) × (o ≡ some e)) ⊎ (o ≡ none)
some_or_none none = inr refl
some_or_none (some e) = inl (e, refl)

-- What stands in the map after a change of the entry `e` of key `k`.
pub found-update :
    (k j : ℕ) (f : BlockEntry → BlockEntry) (b : Blocks) (e d : BlockEntry)
    → find k b ≡ some e
    → find j (update k f b) ≡ some d
    → ((j ≡ k) × (d ≡ f e)) ⊎ ((¬ (j ≡ k)) × (find j b ≡ some d))
found-update k j f b e d here h = elim (ℕ_discrete j k) [
  | yes same ↦ inl (same, ground (arith, find-update k j f b))
  | no other ↦ inr (other, ground (arith, find-update k j f b))
]
