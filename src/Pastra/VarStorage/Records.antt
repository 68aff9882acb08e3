-- ===== src/Pastra/VarStorage/Records.antt =====
-- `GetRecord`: the bytes of a record are those of its entries, one after the other.
use whais.Prelude.{
  ℕ, zero, suc, ◌+◌, ◌-◌, ◌*◌, ◌%◌, ◌≤◌, ◌<◌, ◌≡◌, ◌≢◌, ◌∙◌, refl, true, false, List, [], ◌∷◌, ◌++◌,
  length, get_elem?, drop, min, arith, ltb, ◌==◌, length-append, length-take, length-drop,
  get_elem?-append, get_elem?-take, get_elem?-drop,
}
use native.Mathlib.Decide.{dec_lt}
use whais.Pastra.VarStorage.{
  VariableSizeStore, done, entry_at, next_entry, entry_size, last_chained_entry, entry_read,
  find_entry, copy_out, get_record,
}

-- The entries `ids` are a chain that begins with entry `id`.
unfoldable pub IsChain : VariableSizeStore → ℕ → List ℕ → Type 0
IsChain s id [] = id ≡ last_chained_entry
IsChain s id (i ∷ ids) =
    (id ≡ i)
    × (i ≢ last_chained_entry)
    × (length (entry_at s i).raw_data ≡ entry_size)
    × IsChain s (next_entry (entry_at s i)) ids

-- Their bytes.
unfoldable pub record_bytes : VariableSizeStore → List ℕ → List ℕ
record_bytes s [] = []
record_bytes s (i ∷ ids) = (entry_at s i).raw_data ++ record_bytes s ids

-- The bytes `got` are the `size` bytes of `all` from `offset` on.
pub record IsPart (all : List ℕ) (offset size : ℕ) (got : List ℕ) : Type 0 where
  pub long : length got ≡ size
  pub bytes : (j : ℕ) → j < size → get_elem? got j ≡ get_elem? all (offset + j)

length-entry_read :
    (s : VariableSizeStore) (i offset chunk : ℕ)
    → length (entry_at s i).raw_data ≡ entry_size
    → offset + chunk ≤ entry_size
    → length (entry_read offset chunk (entry_at s i)) ≡ chunk
unfolding entry_read
length-entry_read s i offset chunk full fits = ground (
  arith,
  length-take chunk (drop offset (entry_at s i).raw_data),
  length-drop offset (entry_at s i).raw_data,
)

get_elem?-entry_read :
    (s : VariableSizeStore) (i offset chunk j : ℕ)
    → offset + chunk ≤ entry_size
    → j < chunk
    → get_elem? (entry_read offset chunk (entry_at s i)) j
      ≡ get_elem? (entry_at s i).raw_data (offset + j)
unfolding entry_read
get_elem?-entry_read s i offset chunk j fits below = ground (
  arith,
  get_elem?-take chunk (drop offset (entry_at s i).raw_data) j,
  get_elem?-drop offset (entry_at s i).raw_data j,
)

-- A piece out of one entry, and the rest of the bytes out of the entries behind it.
IsPart-append :
    (s : VariableSizeStore) (i offset chunk size : ℕ) (more all : List ℕ)
    → length (entry_at s i).raw_data ≡ entry_size
    → chunk ≡ min size (entry_size - offset)
    → offset < entry_size
    → IsPart all ((offset + chunk) % entry_size) (size - chunk) more
    → IsPart
        ((entry_at s i).raw_data ++ all)
        offset
        size
        (entry_read offset chunk (entry_at s i) ++ more)
IsPart-append s i offset chunk size more all full e inside part = record {
  long = omega (
    arith,
    length-append (entry_read offset chunk (entry_at s i)) more,
    length-entry_read s i offset chunk full (omega arith),
    part.long,
  );
  bytes = λ j below. ground (
    arith,
    get_elem?-append (entry_read offset chunk (entry_at s i)) more j,
    length-entry_read s i offset chunk full (omega arith),
    get_elem?-entry_read s i offset chunk j (omega arith),
    get_elem?-append (entry_at s i).raw_data all (offset + j),
    part.bytes (j - chunk),
  );
}

copy_out-nothing :
    (fuel : ℕ) (s : VariableSizeStore) (id offset size : ℕ)
    → size ≡ 0
    → 0 < fuel
    → copy_out fuel s id offset size ≡ done []
unfolding copy_out
copy_out-nothing zero s id offset size e h = elim h [ ]
copy_out-nothing (suc fuel) s id offset size e h = rw e refl

copy_out-step :
    (fuel : ℕ) (s : VariableSizeStore) (i offset size : ℕ) (more : List ℕ)
    → 0 < size
    → i ≢ last_chained_entry
    → copy_out fuel s
        (next_entry (entry_at s i))
        ((offset + min size (entry_size - offset)) % entry_size)
        (size - min size (entry_size - offset))
      ≡ done more
    → copy_out (suc fuel) s i offset size
      ≡ done (entry_read offset (min size (entry_size - offset)) (entry_at s i) ++ more)
unfolding copy_out
copy_out-step fuel s i offset size more some inner e =
    let some_left : (size == 0) ≡ false = ground arith in
    let no_end : (i == last_chained_entry) ≡ false = ground arith in rw (some_left, no_end, e) refl

-- The rest of the bytes, behind the piece out of the entry at hand.
copy_out-IsPart :
    (fuel : ℕ) (s : VariableSizeStore) (id : ℕ) (ids : List ℕ) (offset size : ℕ)
    → IsChain s id ids
    → offset < entry_size
    → offset + size ≤ entry_size * length ids
    → size < fuel
    → (got : List ℕ) × (copy_out fuel s id offset size ≡ done got)
      × IsPart (record_bytes s ids) offset size got
unfolding IsChain record_bytes
copy_out-IsPart zero s id ids offset size chain inside fits enough = elim enough [ ]
copy_out-IsPart (suc fuel) s id [] offset size chain inside fits enough = (
  [],
  copy_out-nothing (suc fuel) s id offset size (omega arith) (omega arith),
  record { long = omega arith; bytes = λ j below. absurd (omega arith) },
)
copy_out-IsPart (suc fuel) s id (i ∷ ids) offset size (e, inner, full, chain) inside fits enough =
    let chunk = min size (entry_size - offset) in
    elim (dec_lt (entry_size - offset) size) [
      | yes beyond ↦
          let (more, eq, part) =
            copy_out-IsPart fuel s (next_entry (entry_at s i)) ids ((offset + chunk) % entry_size)
              (size - chunk) chain (omega arith) (omega arith) (omega arith) in
          (
            entry_read offset chunk (entry_at s i) ++ more,
            rw e (copy_out-step fuel s i offset size more (omega arith) inner eq),
            IsPart-append s i offset chunk size more (record_bytes s ids) full refl inside part,
          )
      | no within ↦ elim (dec_lt 0 size) [
        | yes some ↦ (
          entry_read offset chunk (entry_at s i) ++ [],
          rw e (
              copy_out-step fuel s i offset size [] some inner
                (copy_out-nothing fuel s _ _ (size - chunk) (omega arith) (omega arith))),
          IsPart-append s i offset chunk size [] (record_bytes s ids) full refl inside
              (record { long = omega arith; bytes = λ j below. absurd (omega arith) }),
        )
        | no none_left ↦ (
          [],
          copy_out-nothing (suc fuel) s id offset size (omega arith) (omega arith),
          record { long = omega arith; bytes = λ j below. absurd (omega arith) },
        )
      ]
    ]

-- The entry that holds byte `offset` of the record, with the chain from there on.
find_entry-found :
    (fuel : ℕ) (s : VariableSizeStore) (id : ℕ) (ids : List ℕ) (offset : ℕ)
    → IsChain s id ids
    → offset < entry_size * length ids
    → length ids ≤ fuel
    → (found : ℕ) × (place : ℕ) × (rest : List ℕ) × (find_entry fuel s id offset
        ≡ done (found, place))
      × IsChain s found rest
      × (place < entry_size)
      × (place + entry_size * length ids ≡ offset + entry_size * length rest)
      × ((j : ℕ)
          → get_elem? (record_bytes s rest) (place + j)
            ≡ get_elem? (record_bytes s ids) (offset + j))
unfolding IsChain record_bytes find_entry
find_entry-found fuel s id [] offset chain inside enough = absurd (omega arith)
find_entry-found zero s id (i ∷ ids) offset chain inside enough = absurd (omega arith)
find_entry-found (suc fuel) s id (i ∷ ids) offset (e, inner, full, chain) inside enough =
    let no_end : (id == last_chained_entry) ≡ false = ground arith in
    elim (dec_lt offset entry_size) [
      | yes here ↦
          let near : ltb offset entry_size ≡ true = ground arith in
          (
            id,
            offset,
            i ∷ ids,
            rw (no_end, near) refl,
            (e, inner, full, chain),
            here,
            refl,
            λ j. refl,
          )
      | no later ↦
          let far : ltb offset entry_size ≡ false = ground arith in
          let (found, place, rest, eq, c, small, sizes, bytes) =
            find_entry-found fuel s (next_entry (entry_at s i)) ids (offset - entry_size) chain
              (omega arith) (omega arith) in
          (
            found,
            place,
            rest,
            rw (no_end, far, e) eq,
            c,
            small,
            omega arith,
            λ j. ground (
              arith,
              bytes j,
              get_elem?-append (entry_at s i).raw_data (record_bytes s ids) (offset + j),
            ),
          )
    ]

-- `GetRecord` of a range that begins inside a record and ends inside it or at its end: with fuel
-- above the size and at least the number of entries, it returns the bytes of that range.
pub get_record_lem :
    (fuel : ℕ) (s : VariableSizeStore) (first : ℕ) (ids : List ℕ) (offset size : ℕ)
    → IsChain s first ids
    → offset < entry_size * length ids
    → offset + size ≤ entry_size * length ids
    → length ids ≤ fuel
    → size < fuel
    → (got : List ℕ) × (get_record fuel s first offset size ≡ done got)
      × IsPart (record_bytes s ids) offset size got
unfolding get_record
get_record_lem fuel s first ids offset size chain inside fits enough enough' =
    let (found, place, rest, e1, c, small, sizes, same) =
      find_entry-found fuel s first ids offset chain inside enough in
    let (got, e2, part) =
      copy_out-IsPart fuel s found rest place size c small (omega arith) enough' in
    (
      got,
      rw (e1, get_record) e2,
      record { long = part.long; bytes = λ j below. part.bytes j below ∙ same j },
    )
