-- ===== src/Pastra/Container/Invariant.antt =====
-- The invariant of a file container, and the sequence of bytes that it stands for.
use whais.Prelude.{
  ℕ, suc, ◌+◌, ◌-◌, ◌*◌, ◌/◌, ◌%◌, ◌^◌, ◌≤◌, ◌<◌, ◌≡◌, ap, inl, inr, get_or-out, Option, none, List,
  [], ◌∷◌, ◌++◌, length, get_elem?, max, arith, ltb, leb, ◌==◌, ◌&&◌, if◌then◌else◌, length-set,
  length-append, get_or-set, get_or-snoc, get_elem?-out,
}
use native.Mathlib.Decide.{ℕ_discrete, dec_lt}
use whais.Prelude.Place.{block_le, block_sum, place_above, place_inside, place_eq}
use whais.Pastra.File
use whais.Pastra.File.{File, new_file}
use whais.Pastra.File.Laws.{length-write_at, get_elem?-write_at}
use whais.Pastra.Container.{Container, count, file_of, with_file, size}

-- The number of bytes, before it is cut to 64 bits.
abbrev pub total : Container → ℕ
total c = (count c - 1) * c.max_file_size + File.size (file_of c (count c - 1))

-- Byte `i` of the container.
abbrev pub byte_at : Container → ℕ → Option ℕ
byte_at c i = get_elem? (file_of c (i / c.max_file_size)).bytes (i % c.max_file_size)

-- Every unit but the last is full, and the size of a full one is a 32-bit word.
pub record IsFilled (c : Container) : Type 0 where
  pub max_pos : 0 < c.max_file_size
  pub max_word : c.max_file_size < 2 ^ 32
  pub full : (k : ℕ) → suc k < count c → File.size (file_of c k) ≡ c.max_file_size
  pub small : (k : ℕ) → k < count c → File.size (file_of c k) ≤ c.max_file_size

pub record IsValid (c : Container) : Type 0 where
  pub filled : IsFilled c
  pub addressable : total c < 2 ^ 64

pub size-eq-total : {c : Container} → IsValid c → size c ≡ total c
unfolding size
size-eq-total {c} v = ground (arith, v.addressable, get_or-out c.units (count c - 1) new_file)

-- The bytes stand exactly below the total.
pub byte_at-out : (c : Container) (i : ℕ) → IsFilled c → total c ≤ i → byte_at c i ≡ none
byte_at-out c i f h =
    elim (place_above c.max_file_size i f.max_pos (count c - 1)
      (File.size (file_of c (count c - 1))) h) [
        | inl out ↦
            ap (λ (g : File). get_elem? g.bytes (i % c.max_file_size))
              (get_or-out c.units (i / c.max_file_size) new_file (omega arith))
        | inr (e, out) ↦
            get_elem?-out (file_of c (i / c.max_file_size)).bytes (i % c.max_file_size) (rw e out)
      ]

module _ (c : Container) (k p : ℕ) (buf : List ℕ) (inside : k < count c)
    (at : p ≤ File.size (file_of c k)) where
  abbrev pub updated : Container
  updated = with_file c k (File.write buf (File.seek p (file_of c k)))

  size-updated :
      (j : ℕ)
      → File.size (file_of updated j) ≡ (
          if j == k
          then max (File.size (file_of c k)) (p + length buf)
          else File.size (file_of c j))
  unfolding File.seek File.write
  size-updated j = ground (
    arith,
    get_or-set c.units k j (File.write buf (File.seek p (file_of c k))) new_file inside,
    length-write_at p buf (file_of c k).bytes at,
  )

  byte_at-file :
      (i : ℕ)
      → byte_at updated i ≡ (
          if i / c.max_file_size == k
            && (leb p (i % c.max_file_size) && ltb (i % c.max_file_size) (p + length buf))
          then get_elem? buf (i % c.max_file_size - p)
          else byte_at c i)
  unfolding File.seek File.write
  byte_at-file i = ground (
    arith,
    get_or-set c.units k (i / c.max_file_size) (File.write buf (File.seek p (file_of c k))) new_file
        inside,
    get_elem?-write_at p buf (file_of c k).bytes (i % c.max_file_size) at,
  )

  module _ (f : IsFilled c) (fits : p + length buf ≤ c.max_file_size) where
    pub updated-IsFilled : IsFilled updated
    updated-IsFilled = record {
      max_pos = f.max_pos;
      max_word = f.max_word;
      full = λ j h. ground (
        arith,
        size-updated j,
        f.full j,
        f.small j,
        length-set c.units k (File.write buf (File.seek p (file_of c k))),
      );
      small = λ j h. ground (
        arith,
        size-updated j,
        f.full j,
        f.small j,
        length-set c.units k (File.write buf (File.seek p (file_of c k))),
      );
    }

    pub total-updated : total updated ≡ max (total c) (k * c.max_file_size + p + length buf)
    total-updated = elim (ℕ_discrete k (count c - 1)) [
      | yes last ↦ ground (
        arith,
        ap (λ (t : ℕ). t * c.max_file_size) last,
        size-updated (count c - 1),
        length-set c.units k (File.write buf (File.seek p (file_of c k))),
      )
      | no inner ↦ ground (
        arith,
        block_le c.max_file_size k (count c - 1) (omega arith),
        size-updated (count c - 1),
        length-set c.units k (File.write buf (File.seek p (file_of c k))),
      )
    ]

    pub byte_at-updated :
        (i : ℕ)
        → byte_at updated i ≡ (
            if leb (k * c.max_file_size + p) i && ltb i (k * c.max_file_size + p + length buf)
            then get_elem? buf (i - (k * c.max_file_size + p))
            else byte_at c i)
    byte_at-updated i = ground (
      arith,
      place_inside c.max_file_size i f.max_pos k p (length buf) fits,
      place_eq c.max_file_size i f.max_pos k,
      byte_at-file i,
    )

-- A further unit, which is empty, behind units that are all full.
module _ (c : Container) (f : IsFilled c) (at_end : count c * c.max_file_size ≤ total c) where
  abbrev pub extended : Container
  extended = record c { units = c.units ++ new_file ∷ [] }

  pub count-extended : count extended ≡ count c + 1
  count-extended = omega (arith, length-append c.units (new_file ∷ []))

  pub file_of-extended : (j : ℕ) → file_of extended j ≡ file_of c j
  file_of-extended j =
      ground (arith, get_or-snoc c.units new_file j new_file, get_or-out c.units j new_file)

  last_full : 0 < count c → File.size (file_of c (count c - 1)) ≡ c.max_file_size
  last_full some_unit = omega (
    arith,
    block_le c.max_file_size (count c - 1) (count c) (omega arith),
    f.small (count c - 1) (omega arith),
  )

  size-extended : (j : ℕ) → j < count c → File.size (file_of extended j) ≡ c.max_file_size
  size-extended j h = rw (file_of-extended j) (elim (dec_lt (suc j) (count c)) [
    | yes inner ↦ f.full j inner
    | no outer ↦ let e : j ≡ count c - 1 = omega arith in rw e (last_full (omega arith))
  ])

  pub extended-IsFilled : IsFilled extended
  extended-IsFilled = record {
    max_pos = f.max_pos;
    max_word = f.max_word;
    full = λ j h. size-extended j (omega (arith, count-extended));
    small = λ j h.
        ground (
          arith,
          size-extended j,
          file_of-extended j,
          get_or-out c.units j new_file,
          count-extended,
        );
  }

  pub total-extended : total extended ≡ total c
  total-extended = ground (
    arith,
    count-extended,
    file_of-extended (count c),
    get_or-out c.units (count c) new_file (omega arith),
    last_full,
    block_sum c.max_file_size (count c),
    get_or-out c.units (count c - 1) new_file,
  )

  pub byte_at-extended : (i : ℕ) → byte_at extended i ≡ byte_at c i
  byte_at-extended i =
      ap (λ (g : File). get_elem? g.bytes (i % c.max_file_size))
        (file_of-extended (i / c.max_file_size))
