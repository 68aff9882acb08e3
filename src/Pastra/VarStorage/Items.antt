-- ===== src/Pastra/VarStorage/Items.antt =====
-- dbs/pastra/ps_varstorage.cpp, StoreItems and RetrieveItems: the blocks of the store's cache in
-- its container.
use whais.Prelude.{
  ℕ, suc, ◌+◌, ◌-◌, ◌*◌, ◌%◌, ◌^◌, ◌≤◌, ◌<◌, ◌≡◌, List, length, take, min, arith, ltb,
  if◌then◌else◌, length-take,
}
use whais.Pastra.Container.{Container, Outcome, done, size, write, read, and_then, sub64, add64}
use whais.Pastra.Container.Invariant.{IsValid}
use whais.Pastra.Container.Prepare.{CanGrow}
use whais.Pastra.Container.RoundTrip.{read-write}

-- `sizeof(StoreEntry)`
abbrev pub store_entry_size : ℕ
store_entry_size = 64

-- The items that there are, out of `items_count` from `first_item` on.
abbrev pub clip_items : ℕ → ℕ → ℕ → ℕ
clip_items entries_count first_item items_count =
    if ltb entries_count (add64 first_item items_count)
    then sub64 entries_count first_item % 2 ^ 32
    else items_count

unfoldable pub store_items : ℕ → ℕ → ℕ → List ℕ → Container → Outcome (Unit {0})
store_items entries_count first_item items_count from c =
    let bytes = clip_items entries_count first_item items_count * store_entry_size in
    write (suc bytes) (first_item * store_entry_size) (take bytes from) c

unfoldable pub retrieve_items : ℕ → ℕ → ℕ → Container → Outcome (List ℕ)
retrieve_items entries_count first_item items_count c =
    let bytes = clip_items entries_count first_item items_count * store_entry_size in
    read (suc bytes) (first_item * store_entry_size) bytes c

read-write_sized :
    (c : Container) (to n : ℕ) (buf : List ℕ)
    → length buf ≡ n
    → IsValid c
    → CanGrow c
    → to ≤ size c
    → to + n < 2 ^ 64
    → (c' : Container) × (and_then (write (suc n) to buf c) (λ _ c1. read (suc n) to n c1)
        ≡ done buf c')
read-write_sized c to n buf e v g below fits = rw e at (read-write c to buf v g below (rw e fits))

-- The items that are stored in the container at or below its end, where it is valid and can grow,
-- are retrieved, as many of them as the store has; the buffer holds all the items, and their place
-- ends within 64 bits.
pub retrieve-store_items :
    (entries_count first_item items_count : ℕ) (from : List ℕ) (c : Container)
    → IsValid c
    → CanGrow c
    → first_item * store_entry_size ≤ size c
    → first_item ≤ entries_count
    → items_count < 2 ^ 32
    → items_count * store_entry_size ≤ length from
    → (first_item + items_count) * store_entry_size < 2 ^ 64
    → (c' : Container) × (and_then
          (store_items entries_count first_item items_count from c)
          (λ _ c1. retrieve_items entries_count first_item items_count c1)
        ≡ done (take (min items_count (entries_count - first_item) * store_entry_size) from) c')
unfolding store_items retrieve_items
retrieve-store_items entries_count first_item items_count from c v g below there small enough fits =
    let n = min items_count (entries_count - first_item) in
    let clipped : clip_items entries_count first_item items_count ≡ n = ground arith in
    let buf = take (n * store_entry_size) from in
    let long : length buf ≡ n * store_entry_size =
      omega (arith, length-take (n * store_entry_size) from) in
    rw clipped (
      read-write_sized c (first_item * store_entry_size) (n * store_entry_size) buf long v g below
        (omega arith))
