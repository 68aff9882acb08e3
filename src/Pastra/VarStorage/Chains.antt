-- ===== src/Pastra/VarStorage/Chains.antt =====
-- Chains of distinct entries, and changes of entries that stand outside of them.
use whais.Prelude.{
  ℕ, ◌<◌, ◌≡◌, ◌≢◌, refl, List, [], ◌∷◌, arith, All, ◌==◌, if◌then◌else◌, get_or-set,
}
use whais.Pastra.VarStorage.{
  StoreEntry, VariableSizeStore, new_entry, entry_at, entries_count, change, next_entry,
}
use whais.Pastra.VarStorage.Records.{IsChain, record_bytes}

-- `i` is none of the entries, and no entry stands among them twice.
unfoldable pub IsApart : ℕ → List ℕ → Type 0
IsApart i [] = Unit {0}
IsApart i (j ∷ js) = (i ≢ j) × IsApart i js

unfoldable pub IsDistinct : List ℕ → Type 0
unfolding IsApart
IsDistinct [] = Unit {0}
IsDistinct (i ∷ ids) = IsApart i ids × IsDistinct ids

pub entry_at-change :
    (s : VariableSizeStore) (i j : ℕ) (f : StoreEntry → StoreEntry)
    → i < entries_count s
    → entry_at (change i f s) j ≡ (if j == i then f (entry_at s i) else entry_at s j)
entry_at-change s i j f inside =
    ground (arith, get_or-set s.entries i j (f (entry_at s i)) new_entry inside)

-- A chain is what it was where its entries are.
pub kept-IsChain :
    (s s' : VariableSizeStore) (id : ℕ) (ids : List ℕ)
    → All (λ j. entry_at s' j ≡ entry_at s j) ids
    → IsChain s id ids
    → IsChain s' id ids × (record_bytes s' ids ≡ record_bytes s ids)
unfolding IsChain record_bytes
kept-IsChain s s' id [] same chain = (chain, refl)
kept-IsChain s s' id (i ∷ ids) (e, same) (first, inner, full, chain) =
    let (chain', bytes) = kept-IsChain s s' (next_entry (entry_at s i)) ids same chain in
    ((first, inner, rw e full, rw e chain'), rw (e, bytes) refl)

pub change-elsewhere :
    (s : VariableSizeStore) (i : ℕ) (f : StoreEntry → StoreEntry) (ids : List ℕ)
    → i < entries_count s
    → IsApart i ids
    → All (λ j. entry_at (change i f s) j ≡ entry_at s j) ids
unfolding IsApart
change-elsewhere s i f [] inside apart = tt
change-elsewhere s i f (j ∷ js) inside (other, apart) =
    (ground (arith, entry_at-change s i j f inside), change-elsewhere s i f js inside apart)
