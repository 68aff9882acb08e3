-- ===== src/Pastra/Container/Write.antt =====
-- `Write` at or below the end: it returns, it keeps the invariant, and it lays the buffer over the
-- bytes of the container, whose end moves if the buffer reaches behind it.
use whais.Prelude.{
  ℕ, zero, suc, ◌+◌, ◌-◌, ◌*◌, ◌/◌, ◌%◌, ◌^◌, ◌≤◌, ◌<◌, ◌≡◌, ◌∙◌, ◌&&◌, List, length, take, drop,
  get_elem?, max, min, arith, ltb, leb, if◌then◌else◌, length-take, length-set, lt→ltb, take-all,
  length-drop, get_elem?-take, get_elem?-drop,
}
use native.Mathlib.Decide.{dec_lt}
use native.Mathlib.Nat.{mod-eq_of_lt, div-add-mod', mod-lt}
use whais.Pastra.Container.{Container, done, count, add64, chunk_size, prepare_write, write, size}
use whais.Pastra.Container.Invariant.{
  total, byte_at, IsFilled, IsValid, size-eq-total, updated, updated-IsFilled, total-updated,
  byte_at-updated,
}
use whais.Pastra.Container.Prepare.{CanGrow, Prepared, prepare_write_lem}

-- `c'` is `c` with `buf` laid over its bytes from `to` on.
pub record Spliced (c : Container) (to : ℕ) (buf : List ℕ) (c' : Container) : Type 0 where
  pub same_max : c'.max_file_size ≡ c.max_file_size
  pub same_removable : c'.removable ≡ c.removable
  pub grown : total c' ≡ max (total c) (to + length buf)
  pub bytes :
      (i : ℕ)
      → byte_at c' i
        ≡ (if leb to i && ltb i (to + length buf) then get_elem? buf (i - to) else byte_at c i)

chunk_size-eq : (m p n : ℕ) → p < m → p + n < 2 ^ 64 → chunk_size m p n ≡ min n (m - p)
unfolding chunk_size
chunk_size-eq m p n h fits = ground arith

-- One round of `Write` fills the unit at hand as far as the buffer goes.
record Round (c : Container) (to : ℕ) (buf : List ℕ) (n : ℕ) (c' : Container) : Type 0 where
  filled : IsFilled c'
  can_grow : CanGrow c'
  spliced : Spliced c to (take n buf) c'
  next :
      (fuel : ℕ)
      → write (suc fuel) to buf c
        ≡ (if ltb n (length buf) then write fuel (add64 to n) (drop n buf) c' else done tt c')

module _ (c c1 : Container) (to : ℕ) (buf : List ℕ) (fits : to + length buf < 2 ^ 64)
    (q : Prepared c to c1) where
  abbrev piece : ℕ
  piece = min (length buf) (c.max_file_size - to % c.max_file_size)

  abbrev after : Container
  after =
      updated c1 (to / c.max_file_size) (to % c.max_file_size) (take piece buf) q.inside q.reached

  max_pos : 0 < c.max_file_size
  max_pos = rw q.same_max at q.filled.max_pos

  max_word : c.max_file_size < 2 ^ 32
  max_word = rw q.same_max at q.filled.max_word

  piece_word : piece < 2 ^ 32
  piece_word = omega (arith, max_word)

  piece_fits : to % c.max_file_size + length (take piece buf) ≤ c1.max_file_size
  piece_fits = omega (arith, length-take piece buf, q.same_max, mod-lt to max_pos)

  start : to / c.max_file_size * c1.max_file_size + to % c.max_file_size ≡ to
  start = rw q.same_max (div-add-mod' to c.max_file_size)

  after-Spliced : Spliced c to (take piece buf) after
  after-Spliced = record {
    same_max = q.same_max;
    same_removable = q.same_removable;
    grown = omega (
      arith,
      total-updated c1 _ _ (take piece buf) q.inside q.reached q.filled piece_fits,
      start,
      q.same_total,
    );
    bytes = λ i.
        rw start at
          (byte_at-updated c1 _ _ (take piece buf) q.inside q.reached q.filled piece_fits i)
        ∙ rw (q.same_bytes i);
  }

  after_next :
      (fuel : ℕ)
      → prepare_write to c ≡ done tt c1
      → write (suc fuel) to buf c ≡ (
          if ltb piece (length buf)
          then write fuel (add64 to piece) (drop piece buf) after
          else done tt after)
  unfolding write
  after_next fuel e = ground (
    arith,
    e,
    q.reached,
    max_word,
    mod-eq_of_lt piece_word,
    chunk_size-eq c.max_file_size (to % c.max_file_size) (length buf),
    mod-lt to max_pos,
    div-add-mod' to c.max_file_size,
  )

  after-CanGrow : CanGrow after
  after-CanGrow k h = q.can_grow k (omega (arith, same_count))
    where
      same_count : count after ≡ count c1
      same_count = length-set c1.units (to / c.max_file_size) _

  after-Round : prepare_write to c ≡ done tt c1 → Round c to buf piece after
  after-Round e = record {
    filled = updated-IsFilled c1 _ _ (take piece buf) q.inside q.reached q.filled piece_fits;
    can_grow = after-CanGrow;
    spliced = after-Spliced;
    next = λ fuel. after_next fuel e;
  }

write-Round :
    (c : Container) (to : ℕ) (buf : List ℕ)
    → IsFilled c
    → CanGrow c
    → to ≤ total c
    → to + length buf < 2 ^ 64
    → (c' : Container) × Round c to buf
        (min (length buf) (c.max_file_size - to % c.max_file_size))
        c'
write-Round c to buf f g h fits =
    let (c1, e, q) = prepare_write_lem c to f g h in
    (after c c1 to buf fits q, after-Round c c1 to buf fits q e)

-- Two pieces, one behind the other, make the whole.
Spliced-append :
    (c c1 c2 : Container) (to n : ℕ) (buf : List ℕ)
    → n < length buf
    → Spliced c to (take n buf) c1
    → Spliced c1 (to + n) (drop n buf) c2
    → Spliced c to buf c2
Spliced-append c c1 c2 to n buf h first second = record {
  same_max = second.same_max ∙ first.same_max;
  same_removable = second.same_removable ∙ first.same_removable;
  grown = omega (arith, first.grown, second.grown, length-take n buf, length-drop n buf);
  bytes = λ i. ground (
    arith,
    first.bytes i,
    second.bytes i,
    length-take n buf,
    length-drop n buf,
    get_elem?-take n buf (i - to),
    get_elem?-drop n buf (i - (to + n)),
  );
}

pub write-Spliced :
    (fuel : ℕ) (c : Container) (to : ℕ) (buf : List ℕ)
    → IsFilled c
    → CanGrow c
    → to ≤ total c
    → to + length buf < 2 ^ 64
    → length buf < fuel
    → (c' : Container) × (write fuel to buf c ≡ done tt c')
      × IsFilled c'
      × CanGrow c'
      × Spliced c to buf c'
write-Spliced zero c to buf f g h fits enough = elim enough [ ]
write-Spliced (suc fuel) c to buf f g h fits enough =
    let n = min (length buf) (c.max_file_size - to % c.max_file_size) in
    let (c1, r) = write-Round c to buf f g h fits in
    elim (dec_lt n (length buf)) [
      | yes more ↦
          let (c2, e, f2, g2, s2) =
            write-Spliced fuel c1 (to + n) (drop n buf) r.filled r.can_grow
              (omega (arith, r.spliced.grown, length-take n buf)) (omega (arith, length-drop n buf))
              (omega (arith, length-drop n buf, mod-lt to f.max_pos)) in
          let sum : add64 to n ≡ to + n = omega arith in
          (
            c2,
            r.next fuel ∙ rw (lt→ltb _ _ more, sum) e,
            f2,
            g2,
            Spliced-append c c1 c2 to n buf more r.spliced s2,
          )
      | no last ↦ (
        c1,
        r.next fuel ∙ ground arith,
        r.filled,
        r.can_grow,
        rw (take-all n buf (omega arith)) at r.spliced,
      )
    ]

-- `Write` at or below the end of a valid container, within 64 bits and with free names for the
-- units to come, returns. The container is valid again, its size is the end of the buffer where that
-- lies behind the old end, and its bytes are the buffer's where it was written and the old ones
-- everywhere else.
pub write_lem :
    (c : Container) (to : ℕ) (buf : List ℕ)
    → IsValid c
    → CanGrow c
    → to ≤ size c
    → to + length buf < 2 ^ 64
    → (c' : Container) × (write (suc (length buf)) to buf c ≡ done tt c')
      × IsValid c'
      × (size c' ≡ max (size c) (to + length buf))
      × ((i : ℕ)
          → byte_at c' i
            ≡ (if leb to i && ltb i (to + length buf) then get_elem? buf (i - to) else byte_at c i))
write_lem c to buf v g h fits =
    let old = size-eq-total v in
    let (c', e, f, _, s) =
      write-Spliced (suc (length buf)) c to buf v.filled g (omega (arith, old)) fits
        (omega arith) in
    let v' : IsValid c' = record {
      filled = f;
      addressable = omega (arith, s.grown, v.addressable);
    } in
    (c', e, v', omega (arith, old, size-eq-total v', s.grown), s.bytes)
