-- ===== src/Pastra/Container/Cut.antt =====
-- The end of `Colapse`: a valid container is cut to a smaller size.
use whais.Prelude.{
  ℕ, zero, suc, ◌+◌, ◌-◌, ◌/◌, ◌%◌, ◌^◌, ◌≤◌, ◌<◌, ◌≡◌, refl, ap, sym, take-all, ◌∙◌, true, false,
  none, List, [], length, get_elem?, set, take, replicate, arith, ltb, ◌==◌, if◌then◌else◌, lt→ltb,
  length-append, length-take, length-replicate, length-set, take-take, get_or-take, get_or-set,
  get_elem?-append, get_elem?-take,
}
use native.Mathlib.Decide.{dec_lt}
use native.Mathlib.Nat.{div-add-mod', mod-lt}
use whais.Prelude.Place.{place_below}
use whais.Pastra.File
use whais.Pastra.File.{File, new_file}
use whais.Pastra.Container.{
  Container, done, count, file_of, with_file, as_int, forget_last, remove_units, cut,
}
use whais.Pastra.Container.Invariant.{total, byte_at, byte_at-out, IsFilled, IsValid}
use whais.Pastra.Container.Prepare.{CanGrow}
use whais.Pastra.Container.Piece.{unit_inside}

abbrev pub AllRemovable : Container → Type 0
AllRemovable c = (k : ℕ) → c.removable k ≡ true

-- Only the first `keep` units are left.
record Kept (c : Container) (keep : ℕ) (c' : Container) : Type 0 where
  same_max : c'.max_file_size ≡ c.max_file_size
  units : c'.units ≡ take keep c.units
  can_grow : CanGrow c'

forget_last-CanGrow : (c : Container) → 0 < count c → CanGrow c → CanGrow (forget_last c)
forget_last-CanGrow c some_unit g k h = ground (arith, length-take (count c - 1) c.units, g k)

remove_units-Kept :
    (rounds : ℕ) (c : Container)
    → rounds ≤ count c
    → AllRemovable c
    → CanGrow c
    → (c' : Container) × (remove_units rounds c ≡ done tt c') × Kept c (count c - rounds) c'
unfolding remove_units
remove_units-Kept zero c h r g = (
  c,
  refl,
  record {
    same_max = refl;
    units = sym (take-all (count c - 0) c.units (omega arith));
    can_grow = g;
  },
)
remove_units-Kept (suc rounds) c h r g =
    let shorter : count (forget_last c) ≡ count c - 1 =
      omega (arith, length-take (count c - 1) c.units) in
    let (c', e, kept) =
      remove_units-Kept rounds (forget_last c) (omega (arith, shorter)) r
        (forget_last-CanGrow c (omega arith) g) in
    (
      c',
      rw (r (count c - 1)) e,
      record {
        same_max = kept.same_max;
        units =
            kept.units
            ∙ take-take (count (forget_last c) - rounds) (count c - 1) c.units
                (omega (arith, shorter))
            ∙ ap (λ n. take n c.units) (omega (arith, shorter));
        can_grow = kept.can_grow;
      },
    )

as_int-small : (n : ℕ) → n < 2 ^ 31 → as_int n ≡ n
unfolding as_int
as_int-small n h = ground arith

-- `c'` holds the first `n` bytes of `c`.
pub record Truncated (c : Container) (n : ℕ) (c' : Container) : Type 0 where
  pub filled : IsFilled c'
  pub can_grow : CanGrow c'
  pub size_is : total c' ≡ n
  pub bytes : (i : ℕ) → byte_at c' i ≡ (if ltb i n then byte_at c i else none)

-- Nothing is left.
cut-all :
    (c : Container)
    → IsValid c
    → CanGrow c
    → AllRemovable c
    → (c' : Container) × (cut 0 c ≡ done tt c') × Truncated c 0 c'
unfolding cut
cut-all c v g r =
    let (c', e, kept) = remove_units-Kept (count c) c (omega arith) r g in
    let zero_left : count c - count c ≡ 0 = omega arith in
    let none_left : c'.units ≡ [] = kept.units ∙ ap (λ n. take n c.units) zero_left in
    let empty : count c' ≡ 0 = ap (λ (us : List File). length us) none_left in
    let filled : IsFilled c' = record {
      max_pos = rw kept.same_max v.filled.max_pos;
      max_word = rw kept.same_max v.filled.max_word;
      full = λ k h. absurd (omega (arith, empty));
      small = λ k h. absurd (omega (arith, empty));
    } in
    let size_is : total c' ≡ 0 = rw none_left (omega arith) in
    (
      c',
      e,
      record {
        filled = filled;
        can_grow = kept.can_grow;
        size_is = size_is;
        bytes = λ i. byte_at-out c' i filled (omega (arith, size_is)) ∙ ground arith;
      },
    )

module _ (c : Container) (v : IsValid c) (n : ℕ) (pos : 0 < n) (h : n < total c) where
  abbrev last : ℕ
  last = n / c.max_file_size

  abbrev left : ℕ
  left = n % c.max_file_size

  abbrev shortened : File
  shortened = File.set_size left (file_of c last)

  in_last : (last < count c) × (left < File.size (file_of c last))
  in_last = unit_inside c v n 1 (omega arith) (omega arith)

  length-shortened : length shortened.bytes ≡ left
  unfolding File.set_size
  length-shortened = omega (
    arith,
    in_last,
    length-append (take left (file_of c last).bytes)
        (replicate (left - length (file_of c last).bytes) 0),
    length-take left (file_of c last).bytes,
    length-replicate {A = ℕ} (left - length (file_of c last).bytes) 0,
  )

  shortened-bytes :
      (j : ℕ) → j < left → get_elem? shortened.bytes j ≡ get_elem? (file_of c last).bytes j
  unfolding File.set_size
  shortened-bytes j hj = ground (
    arith,
    in_last,
    get_elem?-append (take left (file_of c last).bytes)
        (replicate (left - length (file_of c last).bytes) 0) j,
    length-take left (file_of c last).bytes,
    get_elem?-take left (file_of c last).bytes j,
  )

  module _ (c' : Container) (kept : Kept (with_file c last shortened) (last + 1) c') where
    kept-file :
        (j : ℕ)
        → file_of c' j
          ≡ (if ltb j last then file_of c j else if j == last then shortened else new_file)
    kept-file j = rw kept.units (
        ground (
          arith,
          get_or-take (last + 1) (set c.units last shortened) j new_file,
          get_or-set c.units last j shortened new_file in_last.0,
        ))

    kept-count : count c' ≡ last + 1
    kept-count = rw kept.units (
        omega (
          arith,
          in_last,
          length-take (last + 1) (set c.units last shortened),
          length-set c.units last shortened,
        ))

    kept-IsFilled : IsFilled c'
    kept-IsFilled = record {
      max_pos = rw kept.same_max v.filled.max_pos;
      max_word = rw kept.same_max v.filled.max_word;
      full = λ k hk.
          rw kept.same_max (ground (arith, kept-count, kept-file k, v.filled.full k, in_last));
      small = λ k hk. rw kept.same_max (
          ground (
            arith,
            kept-count,
            kept-file k,
            v.filled.small k,
            length-shortened,
            in_last,
            mod-lt n v.filled.max_pos,
          ));
    }

    kept-total : total c' ≡ n
    kept-total =
        let e : count c' - 1 ≡ last = omega (arith, kept-count) in
        let f : File.size (file_of c' last) ≡ left =
          ground (arith, kept-file last, length-shortened) in
        rw (kept.same_max, e, f) (div-add-mod' n c.max_file_size)

    kept-byte_at : (i : ℕ) → i < n → byte_at c' i ≡ byte_at c i
    kept-byte_at i below = rw kept.same_max (
        ground (
          arith,
          kept-file (i / c.max_file_size),
          place_below c.max_file_size i v.filled.max_pos last left
              (omega (arith, mod-lt n v.filled.max_pos))
              (rw (div-add-mod' n c.max_file_size) below),
          shortened-bytes (i % c.max_file_size),
        ))

    kept-Truncated : Truncated c n c'
    kept-Truncated = record {
      filled = kept-IsFilled;
      can_grow = kept.can_grow;
      size_is = kept-total;
      bytes = λ i. elim (dec_lt i n) [
        | yes below ↦ kept-byte_at i below ∙ rw (lt→ltb _ _ below)
        | no above ↦ byte_at-out c' i kept-IsFilled (omega (arith, kept-total)) ∙ ground arith
      ];
    }

-- The unit that holds the new end is cut, and those behind it go.
cut-unit :
    (c : Container) (n k rest rounds : ℕ) (c' : Container)
    → 0 < n
    → as_int (n / c.max_file_size) ≡ k
    → as_int (n % c.max_file_size) ≡ rest
    → count c - (k + 1) ≡ rounds
    → remove_units rounds (with_file c k (File.set_size rest (file_of c k))) ≡ done tt c'
    → cut n c ≡ done tt c'
unfolding cut
cut-unit c n k rest rounds c' pos ek el er e =
    let some_left : (n == 0) ≡ false = ground arith in rw (ek, el, er, some_left) e

-- `cut` to a smaller size, with every file removable.
pub cut-Truncated :
    (c : Container) (n : ℕ)
    → IsValid c
    → CanGrow c
    → AllRemovable c
    → n < total c
    → c.max_file_size ≤ 2 ^ 31
    → n / c.max_file_size < 2 ^ 31
    → (c' : Container) × (cut n c ≡ done tt c') × Truncated c n c'
cut-Truncated c zero v g r h narrow few = cut-all c v g r
cut-Truncated c (suc n) v g r h narrow few =
    let pos : 0 < suc n = omega arith in
    let k = last c v (suc n) pos h in
    let f = shortened c v (suc n) pos h in
    let inside = in_last c v (suc n) pos h in
    let same_count : count (with_file c k f) ≡ count c = length-set c.units k f in
    let rounds = count (with_file c k f) - (k + 1) in
    let (c', e, kept) =
      remove_units-Kept rounds (with_file c k f) (omega arith) r
        (λ j hj. g j (omega (arith, same_count))) in
    let keep : count (with_file c k f) - rounds ≡ k + 1 = omega (arith, same_count, inside) in
    let unit_int = as_int-small (suc n / c.max_file_size) few in
    let size_int =
      as_int-small (suc n % c.max_file_size) (omega (arith, mod-lt (suc n) v.filled.max_pos)) in
    (
      c',
      cut-unit c (suc n) k (suc n % c.max_file_size) rounds c' pos unit_int size_int
          (omega (arith, same_count)) e,
      kept-Truncated c v (suc n) pos h c' (rw keep at kept),
    )
