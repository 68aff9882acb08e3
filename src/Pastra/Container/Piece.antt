-- ===== src/Pastra/Container/Piece.antt =====
-- One round of `Read`: the piece that the file at hand gives, while the positions in the files are
-- all that moves.
use whais.Prelude.{
  ℕ, suc, ◌+◌, ◌-◌, ◌*◌, ◌/◌, ◌%◌, ◌^◌, ◌≤◌, ◌<◌, ◌≡◌, refl, ◌∙◌, inl, inr, List, ◌++◌, length,
  take, drop, get_elem?, min, arith, ltb, if◌then◌else◌, length-take, length-drop, length-set,
  get_elem?-take, get_elem?-drop, get_or-set, get_or-out,
}
use native.Mathlib.Decide.{dec_lt}
use native.Mathlib.Nat.{mod-eq_of_lt, div-add-mod', mod-lt}
use whais.Prelude.Place.{place_below, place_inside, place_eq, block_le}
use whais.Pastra.File
use whais.Pastra.File.{File, new_file}
use whais.Pastra.File.Laws.{read-seek}
use whais.Pastra.Container.{
  Container, done, count, file_of, with_file, add64, read, read_size, and_then,
}
use whais.Pastra.Container.Prepare.{CanGrow}
use whais.Pastra.Container.Invariant.{total, byte_at, IsFilled, IsValid, size-eq-total}

-- Two containers that differ in the positions of their files alone.
pub record SameContent (c c' : Container) : Type 0 where
  pub same_max : c'.max_file_size ≡ c.max_file_size
  pub same_count : count c' ≡ count c
  pub same_files : (k : ℕ) → (file_of c' k).bytes ≡ (file_of c k).bytes
  pub same_ignore : c'.ignore_existing ≡ c.ignore_existing
  pub same_leftover : c'.leftover ≡ c.leftover
  pub same_removable : c'.removable ≡ c.removable

pub SameContent-refl : (c : Container) → SameContent c c
SameContent-refl c = record {
  same_max = refl;
  same_count = refl;
  same_files = λ k. refl;
  same_ignore = refl;
  same_leftover = refl;
  same_removable = refl;
}

module _ {c c' : Container} (s : SameContent c c') where
  pub SameContent-total : total c' ≡ total c
  SameContent-total = rw (s.same_max, s.same_count, s.same_files (count c - 1))

  pub SameContent-byte_at : (i : ℕ) → byte_at c' i ≡ byte_at c i
  SameContent-byte_at i = rw (s.same_max, s.same_files (i / c.max_file_size))

  pub SameContent-IsFilled : IsFilled c → IsFilled c'
  SameContent-IsFilled f = record {
    max_pos = rw s.same_max f.max_pos;
    max_word = rw s.same_max f.max_word;
    full = λ k h. rw (s.same_max, s.same_files k) (f.full k (rw s.same_count at h));
    small = λ k h. rw (s.same_max, s.same_files k) (f.small k (rw s.same_count at h));
  }

  pub SameContent-IsValid : IsValid c → IsValid c'
  SameContent-IsValid v = record {
    filled = SameContent-IsFilled v.filled;
    addressable = rw SameContent-total v.addressable;
  }

  pub SameContent-CanGrow : CanGrow c → CanGrow c'
  SameContent-CanGrow g k h = rw (s.same_ignore, s.same_leftover) (g k (rw s.same_count at h))

  pub SameContent-trans : {c'' : Container} → SameContent c' c'' → SameContent c c''
  SameContent-trans t = record {
    same_max = t.same_max ∙ s.same_max;
    same_count = t.same_count ∙ s.same_count;
    same_files = λ k. t.same_files k ∙ s.same_files k;
    same_ignore = t.same_ignore ∙ s.same_ignore;
    same_leftover = t.same_leftover ∙ s.same_leftover;
    same_removable = t.same_removable ∙ s.same_removable;
  }

moved-SameContent :
    (c : Container) (k : ℕ) (f : File)
    → k < count c
    → f.bytes ≡ (file_of c k).bytes
    → SameContent c (with_file c k f)
moved-SameContent c k f inside e = record {
  same_max = refl;
  same_count = length-set c.units k f;
  same_files = λ j. ground (arith, get_or-set c.units k j f new_file inside);
  same_ignore = refl;
  same_leftover = refl;
  same_removable = refl;
}

some_unit : (c : Container) → 0 < total c → 0 < count c
some_unit c h = elim (dec_lt 0 (count c)) [
  | yes h' ↦ h'
  | no none_yet ↦ ground (arith, get_or-out c.units (count c - 1) new_file)
]

read_size-eq :
    (file_size p n : ℕ)
    → p < file_size
    → p + n < 2 ^ 64
    → file_size < 2 ^ 64
    → read_size file_size p n ≡ min n (file_size - p)
unfolding read_size
read_size-eq file_size p n h fits small = ground arith

module _ (c : Container) (v : IsValid c) (from wanted : ℕ) (some_bytes : 0 < wanted)
    (h : from + wanted ≤ total c) where
  abbrev pub unit_no : ℕ
  unit_no = from / c.max_file_size

  abbrev pub place : ℕ
  place = from % c.max_file_size

  abbrev pub file : File
  file = file_of c unit_no

  abbrev pub piece : ℕ
  piece = min wanted (File.size file - place)

  pub unit_inside : (unit_no < count c) × (place < File.size file)
  unit_inside =
      elim (place_below c.max_file_size from v.filled.max_pos (count c - 1)
        (File.size (file_of c (count c - 1)))
        (v.filled.small (count c - 1) (omega (arith, some_unit c))) (omega arith)) [
          | inl inner ↦
              (omega arith, omega (arith, v.filled.full unit_no, mod-lt from v.filled.max_pos))
          | inr (e, lt) ↦ (omega (arith, some_unit c), rw e lt)
        ]

  pub taken : List ℕ
  taken = take piece (drop place file.bytes)

  abbrev pub after : Container
  after = with_file c unit_no (record file { position = place + piece })

  pub after-SameContent : SameContent c after
  after-SameContent = moved-SameContent c unit_no _ unit_inside.0 refl

  piece_fits : place + piece ≤ c.max_file_size
  piece_fits = omega (arith, unit_inside.1, v.filled.small unit_no unit_inside.0)

  start : unit_no * c.max_file_size + place ≡ from
  start = div-add-mod' from c.max_file_size

  -- The piece holds the bytes from `from` on.
  pub taken-bytes :
      (length taken ≡ piece) × ((j : ℕ) → j < piece → get_elem? taken j ≡ byte_at c (from + j))
  unfolding taken
  taken-bytes = (
    omega (arith, length-take piece (drop place file.bytes), length-drop place file.bytes),
    λ j hj. ground (
      arith,
      get_elem?-take piece (drop place file.bytes) j,
      get_elem?-drop place file.bytes j,
      place_inside c.max_file_size (from + j) v.filled.max_pos unit_no place piece piece_fits,
      place_eq c.max_file_size (from + j) v.filled.max_pos unit_no,
      start,
    ),
  )

  file_small : File.size file < 2 ^ 64
  file_small = elim (dec_lt (suc unit_no) (count c)) [
    | yes inner ↦ omega (
      arith,
      v.addressable,
      v.filled.full unit_no inner,
      block_le c.max_file_size 0 (count c - 1) (omega arith),
    )
    | no outer ↦
        let last : unit_no ≡ count c - 1 = omega (arith, unit_inside.0) in
        rw last (omega (arith, v.addressable))
  ]

  pub read_next :
      (fuel : ℕ)
      → read (suc fuel) from wanted c ≡ (
          if ltb piece wanted
          then and_then
              (read fuel (add64 from piece) (wanted - piece) after)
              (λ more c'. done (taken ++ more) c')
          else done taken after)
  unfolding read taken
  read_next fuel =
      let fit : place + wanted < 2 ^ 64 = omega (arith, start, v.addressable) in
      let chunk = read_size-eq (File.size file) place wanted unit_inside.1 fit file_small in
      let got = read-seek place piece file (omega (arith, unit_inside.1)) in
      let word : piece % 2 ^ 32 ≡ piece =
        mod-eq_of_lt (omega (arith, piece_fits, v.filled.max_word)) in
      rw (chunk, word)
        (rw got (rw chunk (ground (arith, unit_inside.0, size-eq-total v, v.addressable))))
