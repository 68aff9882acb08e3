-- ===== src/Pastra/Container/Read.antt =====
-- `Read` within the size returns the bytes that are asked for and changes none; the positions in
-- the files are all that moves.
use whais.Prelude.{
  ℕ, zero, suc, ◌+◌, ◌-◌, ◌≤◌, ◌<◌, ◌≡◌, ◌∙◌, List, [], ◌++◌, length, get_elem?, arith, lt→ltb,
  length-append, get_elem?-append,
}
use native.Mathlib.Decide.{dec_lt}
use whais.Pastra.Container.{Container, done, add64, read, size}
use whais.Pastra.Container.Invariant.{total, byte_at, IsValid, size-eq-total}
use whais.Pastra.Container.Piece.{
  SameContent, SameContent-refl, SameContent-total, SameContent-byte_at, SameContent-IsValid,
  SameContent-trans, piece, after, taken, unit_inside, after-SameContent, taken-bytes, read_next,
}

-- `got` is what the container holds from `from` on, and `c'` holds the same as `c`.
pub record Fetched (c : Container) (from wanted : ℕ) (got : List ℕ) (c' : Container) : Type 0 where
  pub same : SameContent c c'
  pub long : length got ≡ wanted
  pub bytes : (j : ℕ) → j < wanted → get_elem? got j ≡ byte_at c (from + j)

Fetched-append :
    (c c1 c2 : Container) (from n wanted : ℕ) (got more : List ℕ)
    → n ≤ wanted
    → Fetched c from n got c1
    → Fetched c1 (from + n) (wanted - n) more c2
    → Fetched c from wanted (got ++ more) c2
Fetched-append c c1 c2 from n wanted got more h first second = record {
  same = SameContent-trans first.same second.same;
  long = omega (arith, first.long, second.long, length-append got more);
  bytes = λ j hj.
      let shift : n ≤ j → from + n + (j - n) ≡ from + j = λ h. omega arith in
      ground (
        arith,
        get_elem?-append got more j,
        first.long,
        first.bytes j,
        second.bytes (j - n),
        SameContent-byte_at first.same (from + n + (j - n)),
        shift,
      );
}

pub read-Fetched :
    (fuel : ℕ) (c : Container) (from wanted : ℕ)
    → IsValid c
    → from + wanted ≤ total c
    → wanted < fuel
    → (got : List ℕ) × (c' : Container) × (read fuel from wanted c ≡ done got c')
      × Fetched c from wanted got c'
read-Fetched zero c from wanted v h enough = elim enough [ ]
read-Fetched (suc fuel) c from wanted v h enough = elim (dec_lt 0 wanted) [
  | no nothing ↦
      let z : wanted ≡ 0 = omega arith in
      (
        [],
        c,
        unfold read in rw z,
        record {
          same = SameContent-refl c;
          long = omega arith;
          bytes = λ j hj. absurd (omega arith);
        },
      )
  | yes pos ↦
      let n = piece c v from wanted pos h in
      let c1 = after c v from wanted pos h in
      let same1 = after-SameContent c v from wanted pos h in
      let (len, bytes) = taken-bytes c v from wanted pos h in
      let step = read_next c v from wanted pos h fuel in
      let first : Fetched c from n (taken c v from wanted pos h) c1 = record {
        same = same1;
        long = len;
        bytes = bytes;
      } in
      elim (dec_lt n wanted) [
        | no whole ↦
            let e : n ≡ wanted = omega arith in
            (
              taken c v from wanted pos h,
              c1,
              step ∙ ground arith,
              record { same = same1; long = len ∙ e; bytes = λ j hj. bytes j (omega arith) },
            )
        | yes part ↦
            let (more, c2, e, second) =
              read-Fetched fuel c1 (from + n) (wanted - n) (SameContent-IsValid same1 v)
                (omega (arith, SameContent-total same1))
                (omega (arith, unit_inside c v from wanted pos h)) in
            let sum : add64 from n ≡ from + n = omega (arith, v.addressable) in
            (
              taken c v from wanted pos h ++ more,
              c2,
              step ∙ rw (lt→ltb _ _ part, sum, e),
              Fetched-append c c1 c2 from n wanted _ more (omega arith) first second,
            )
      ]
]

-- `Read` of bytes that a valid container has returns as many bytes as asked for, byte `j` of them
-- being the container's byte `from + j`; the container stays valid, with the same size and bytes.
pub read_lem :
    (c : Container) (from wanted : ℕ)
    → IsValid c
    → from + wanted ≤ size c
    → (got : List ℕ) × (c' : Container) × (read (suc wanted) from wanted c ≡ done got c')
      × (length got ≡ wanted)
      × ((j : ℕ) → j < wanted → get_elem? got j ≡ byte_at c (from + j))
      × IsValid c'
      × (size c' ≡ size c)
      × ((i : ℕ) → byte_at c' i ≡ byte_at c i)
read_lem c from wanted v h =
    let (got, c', e, r) =
      read-Fetched (suc wanted) c from wanted v (omega (arith, size-eq-total v)) (omega arith) in
    let v' = SameContent-IsValid r.same v in
    (
      got,
      c',
      e,
      r.long,
      r.bytes,
      v',
      omega (arith, size-eq-total v, size-eq-total v', SameContent-total r.same),
      SameContent-byte_at r.same,
    )
