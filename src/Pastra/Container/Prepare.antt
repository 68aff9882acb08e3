-- ===== src/Pastra/Container/Prepare.antt =====
-- The head of `Write`: a write at or below the end finds a unit to begin in, or adds it.
use whais.Prelude.{
  ℕ, suc, ◌+◌, ◌-◌, ◌*◌, ◌/◌, ◌%◌, ◌≤◌, ◌<◌, ◌≡◌, refl, false, not, get_or-out, ◌&&◌, [], ◌∷◌, ◌++◌,
  arith,
}
use native.Mathlib.Decide.{dec_lt}
use native.Mathlib.Nat.{div-add-mod', mod-lt}
use whais.Prelude.Place.{block_le, place_eq}
use whais.Pastra.File
use whais.Pastra.File.{new_file}
use whais.Pastra.Container.{Container, done, count, file_of, extend_container, prepare_write}
use whais.Pastra.Container.Invariant.{
  total, byte_at, IsFilled, extended, extended-IsFilled, total-extended, byte_at-extended,
  count-extended,
}

-- The names of all units to come are free, or what stands there is to be overwritten.
abbrev pub CanGrow : Container → Type 0
CanGrow c = (k : ℕ) → count c ≤ k → (not c.ignore_existing && c.leftover k) ≡ false

pub total_le : (c : Container) → IsFilled c → total c ≤ count c * c.max_file_size
total_le c f = elim (dec_lt 0 (count c)) [
  | yes some_unit ↦ omega (
    arith,
    block_le c.max_file_size (count c - 1) (count c) (omega arith),
    f.small (count c - 1) (omega arith),
  )
  | no none_yet ↦ ground (arith, get_or-out c.units (count c - 1) new_file)
]

pub reached_lem :
    (c : Container) (to : ℕ)
    → IsFilled c
    → to ≤ total c
    → to / c.max_file_size < count c
    → to % c.max_file_size ≤ File.size (file_of c (to / c.max_file_size))
reached_lem c to f h inside = elim (dec_lt (suc (to / c.max_file_size)) (count c)) [
  | yes inner ↦ omega (arith, f.full (to / c.max_file_size) inner, mod-lt to f.max_pos)
  | no outer ↦
      let last : to / c.max_file_size ≡ count c - 1 = omega arith in
      rw last (omega (arith, rw last at (div-add-mod' to c.max_file_size)))
]

-- What the head of `Write` leaves: the same bytes, and a unit that the write can begin in.
pub record Prepared (c : Container) (to : ℕ) (c' : Container) : Type 0 where
  pub filled : IsFilled c'
  pub can_grow : CanGrow c'
  pub same_max : c'.max_file_size ≡ c.max_file_size
  pub same_removable : c'.removable ≡ c.removable
  pub same_total : total c' ≡ total c
  pub same_bytes : (i : ℕ) → byte_at c' i ≡ byte_at c i
  pub inside : to / c.max_file_size < count c'
  pub reached : to % c.max_file_size ≤ File.size (file_of c' (to / c.max_file_size))

prepare_write-inside :
    (c : Container) (to : ℕ)
    → IsFilled c
    → CanGrow c
    → to ≤ total c
    → to / c.max_file_size < count c
    → (prepare_write to c ≡ done tt c) × Prepared c to c
unfolding prepare_write extend_container
prepare_write-inside c to f g h inside = (
  ground arith,
  record {
    filled = f;
    can_grow = g;
    same_max = refl;
    same_removable = refl;
    same_total = refl;
    same_bytes = λ i. refl;
    inside = inside;
    reached = reached_lem c to f h inside;
  },
)

pub prepare_write-at_end :
    (c : Container) (to : ℕ)
    → to / c.max_file_size ≡ count c
    → to % c.max_file_size ≡ 0
    → (not c.ignore_existing && c.leftover (count c)) ≡ false
    → prepare_write to c ≡ done tt (record c { units = c.units ++ new_file ∷ [] })
unfolding prepare_write extend_container
prepare_write-at_end c to k p free = ground arith

first_block :
    (c : Container) (to : ℕ)
    → IsFilled c
    → to ≤ total c
    → count c ≤ to / c.max_file_size
    → to / c.max_file_size ≡ count c
first_block c to f h above = elim (dec_lt (count c) (to / c.max_file_size)) [
  | yes far ↦ absurd (
      omega (
        arith,
        div-add-mod' to c.max_file_size,
        total_le c f,
        f.max_pos,
        block_le c.max_file_size (count c) (to / c.max_file_size) far,
      ))
  | no near ↦ omega arith
]

prepare_write-extend :
    (c : Container) (to : ℕ)
    → IsFilled c
    → CanGrow c
    → to ≤ total c
    → count c ≤ to / c.max_file_size
    → (c' : Container) × (prepare_write to c ≡ done tt c') × Prepared c to c'
prepare_write-extend c to f g h above =
    let k : to / c.max_file_size ≡ count c = first_block c to f h above in
    let e : to ≡ count c * c.max_file_size + to % c.max_file_size =
      place_eq c.max_file_size to f.max_pos (count c) k in
    let at_end : count c * c.max_file_size ≤ total c = omega arith in
    let p : to % c.max_file_size ≡ 0 = omega (arith, total_le c f) in
    (
      extended c f at_end,
      prepare_write-at_end c to k p (g (count c) (omega arith)),
      record {
        filled = extended-IsFilled c f at_end;
        can_grow = λ j hj. g j (omega (arith, count-extended c f at_end));
        same_max = refl;
        same_removable = refl;
        same_total = total-extended c f at_end;
        same_bytes = byte_at-extended c f at_end;
        inside = omega (arith, count-extended c f at_end);
        reached = omega arith;
      },
    )

pub prepare_write_lem :
    (c : Container) (to : ℕ)
    → IsFilled c
    → CanGrow c
    → to ≤ total c
    → (c' : Container) × (prepare_write to c ≡ done tt c') × Prepared c to c'
prepare_write_lem c to f g h = elim (dec_lt (to / c.max_file_size) (count c)) [
  | yes inside ↦ let (e, q) = prepare_write-inside c to f g h inside in (c, e, q)
  | no above ↦ prepare_write-extend c to f g h (omega arith)
]
