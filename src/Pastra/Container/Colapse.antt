-- ===== src/Pastra/Container/Colapse.antt =====
-- `Colapse`: an interval of the bytes is taken out of a valid container.
use whais.Prelude.{
  ℕ, suc, ◌+◌, ◌-◌, ◌/◌, ◌^◌, ◌≤◌, ◌<◌, ◌≡◌, refl, ◌||◌, true, false, arith, ltb, ◌==◌, ◌⊎◌,
  if◌then◌else◌,
}
use native.Mathlib.Decide.{dec_lt}
use native.Mathlib.Nat.{div-add-mod'}
use whais.Prelude.Place.{block_le}
use whais.Pastra.Container.{
  Container, done, failed, invalid_parameters, count, size, sub64, move_down, cut, colapse,
}
use whais.Pastra.Container.Invariant.{total, byte_at, byte_at-out, IsFilled, IsValid, size-eq-total}
use whais.Pastra.Container.Prepare.{CanGrow, total_le}
use whais.Pastra.Container.Move.{Moved, move_down-Moved}
use whais.Pastra.Container.Cut.{AllRemovable, Truncated, cut-Truncated}

-- What the sizes must be for the loops of `Colapse`: an `int` holds a place in a file and the
-- number of a file, and the size can be passed by 1024 without a wrap.
pub record IsModest (c : Container) : Type 0 where
  pub room : total c + 1024 < 2 ^ 64
  pub narrow : c.max_file_size ≤ 2 ^ 31
  pub few : count c < 2 ^ 31

-- `c'` holds the bytes of `c` but those from `from` up to `to`.
pub record Collapsed (c : Container) (from to : ℕ) (c' : Container) : Type 0 where
  pub valid : IsValid c'
  pub size_is : size c' ≡ size c - (to - from)
  pub bytes :
      (i : ℕ) → byte_at c' i ≡ (if ltb i from then byte_at c i else byte_at c (i + (to - from)))

-- An interval that ends before it begins, or behind the end, is refused with no change.
pub colapse-refused :
    (fuel from to : ℕ) (c : Container)
    → (to < from) ⊎ (size c < to)
    → colapse fuel from to c ≡ failed invalid_parameters c
unfolding colapse
colapse-refused fuel from to c h =
    let out : (ltb to from || ltb (size c) to) ≡ true = ground arith in rw out refl

colapse-empty :
    (fuel at : ℕ) (c : Container) → at ≤ size c → size c < 2 ^ 64 → colapse fuel at at c ≡ done tt c
unfolding colapse
colapse-empty fuel at c h small = ground arith

colapse-steps :
    (fuel from to n : ℕ) (c c1 c2 : Container)
    → from < to
    → to ≤ size c
    → size c < 2 ^ 64
    → n ≡ size c - (to - from)
    → move_down fuel to from (size c) c ≡ done tt c1
    → cut n c1 ≡ done tt c2
    → colapse fuel from to c ≡ done tt c2
unfolding colapse
colapse-steps fuel from to n c c1 c2 h below small en e1 e2 =
    let inside : (ltb to from || ltb (size c) to) ≡ false = ground arith in
    let some : (sub64 to from == 0) ≡ false = ground arith in
    let left : sub64 (size c) (sub64 to from) ≡ n = omega arith in rw (inside, some, e1, left) e2

Moved-refl : (c : Container) (a gap : ℕ) → IsValid c → CanGrow c → Moved c a gap 0 c
Moved-refl c a gap v g = record {
  valid = v;
  can_grow = g;
  same_max = refl;
  same_removable = refl;
  same_total = refl;
  bytes = λ i. ground arith;
}

quotient_few :
    (c : Container) (n : ℕ)
    → IsFilled c
    → n < total c
    → count c < 2 ^ 31
    → n / c.max_file_size < 2 ^ 31
quotient_few c n f h few = elim (dec_lt (n / c.max_file_size) (count c)) [
  | yes below ↦ omega arith
  | no above ↦ absurd (
      omega (
        arith,
        div-add-mod' n c.max_file_size,
        total_le c f,
        block_le c.max_file_size (count c) (suc (n / c.max_file_size)) (omega arith),
      ))
]

-- The bytes after the move, cut where the last of them now stands.
collapsed_byte :
    (c c1 c2 : Container) (from to n d i : ℕ)
    → from < to
    → to ≤ total c
    → n ≡ total c - (to - from)
    → d ≡ total c - to
    → IsFilled c
    → Moved c from (to - from) d c1
    → Truncated c1 n c2
    → byte_at c2 i ≡ (if ltb i from then byte_at c i else byte_at c (i + (to - from)))
collapsed_byte c c1 c2 from to n d i h inside en ed f m t =
    ground (arith, t.bytes i, m.bytes i, byte_at-out c (i + (to - from)) f)

Truncated-Collapsed :
    (c c1 c2 : Container) (from to n d : ℕ)
    → IsValid c
    → from < to
    → to ≤ total c
    → n ≡ total c - (to - from)
    → d ≡ total c - to
    → Moved c from (to - from) d c1
    → Truncated c1 n c2
    → Collapsed c from to c2
Truncated-Collapsed c c1 c2 from to n d v h inside en ed m t =
    let valid : IsValid c2 = record {
      filled = t.filled;
      addressable = omega (arith, t.size_is, v.addressable);
    } in
    record {
      valid = valid;
      size_is = omega (arith, size-eq-total valid, size-eq-total v, t.size_is);
      bytes = λ i. collapsed_byte c c1 c2 from to n d i h inside en ed v.filled m t;
    }

-- The rest of the call, once the bytes are moved.
colapse-Moved :
    (fuel from to d : ℕ) (c c1 : Container)
    → IsValid c
    → AllRemovable c
    → IsModest c
    → from < to
    → to ≤ total c
    → d ≡ total c - to
    → move_down fuel to from (total c) c ≡ done tt c1
    → Moved c from (to - from) d c1
    → (c' : Container) × (colapse fuel from to c ≡ done tt c') × Collapsed c from to c'
colapse-Moved fuel from to d c c1 v r small h inside ed e1 m =
    let n = total c - (to - from) in
    let full = size-eq-total v in
    let few = quotient_few c n v.filled (omega arith) small.few in
    let (c2, e2, t) =
      cut-Truncated c1 n m.valid m.can_grow (rw m.same_removable r) (omega (arith, m.same_total))
        (rw m.same_max small.narrow) (rw m.same_max few) in
    (
      c2,
      colapse-steps fuel from to n c c1 c2 h (omega arith) (omega (arith, v.addressable))
          (omega arith) (rw full e1) e2,
      Truncated-Collapsed c c1 c2 from to n d v h inside refl ed m t,
    )

colapse-wide :
    (fuel from to : ℕ) (c : Container)
    → IsValid c
    → CanGrow c
    → AllRemovable c
    → IsModest c
    → from < to
    → to ≤ total c
    → total c < fuel
    → (c' : Container) × (colapse fuel from to c ≡ done tt c') × Collapsed c from to c'
colapse-wide fuel from to c v g r small h inside enough =
    let (c1, e1, m) =
      move_down-Moved c from (to - from) (omega arith) fuel 0 from to c (omega arith) (omega arith)
        inside small.room (Moved-refl c from (to - from) v g) (omega arith) in
    colapse-Moved fuel from to (total c - (from + (to - from))) c c1 v r small h inside
      (omega arith) e1 m

-- Taking out an interval of a valid container, whose files can all be removed, whose next units can
-- be made, whose size is 1024 below 2 ^ 64 at least, and which has units of 2 ^ 31 bytes at most and
-- fewer than 2 ^ 31 of them: with fuel above the size the call returns, and leaves a valid
-- container with the bytes before the interval and those behind it, in order, and no others.
pub colapse_lem :
    (fuel from to : ℕ) (c : Container)
    → IsValid c
    → CanGrow c
    → AllRemovable c
    → IsModest c
    → from ≤ to
    → to ≤ size c
    → size c < fuel
    → (c' : Container) × (colapse fuel from to c ≡ done tt c') × Collapsed c from to c'
colapse_lem fuel from to c v g r small h inside enough = elim (dec_lt from to) [
  | no same ↦
      let e : to ≡ from = omega arith in
      let none_out : to - from ≡ 0 = omega arith in
      let fits : size c < 2 ^ 64 = omega (arith, size-eq-total v, v.addressable) in
      (
        c,
        rw e (colapse-empty fuel from c (omega arith) fits),
        record { valid = v; size_is = omega arith; bytes = λ i. rw none_out (ground arith) },
      )
  | yes wide ↦
      colapse-wide fuel from to c v g r small wide (omega (arith, size-eq-total v))
        (omega (arith, size-eq-total v))
]
