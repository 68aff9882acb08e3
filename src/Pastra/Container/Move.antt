-- ===== src/Pastra/Container/Move.antt =====
-- The loop of `Colapse` that moves the bytes behind the gap down over it.
use whais.Prelude.{
  ℕ, zero, suc, ◌+◌, ◌-◌, ◌^◌, ◌≤◌, ◌<◌, ◌≡◌, ◌∙◌, ◌&&◌, List, min, arith, ltb, leb, if◌then◌else◌,
  lt→ltb,
}
use native.Mathlib.Decide.{dec_lt}
use whais.Pastra.Container.{Container, done, add64, read, write, move_down}
use whais.Pastra.Container.Invariant.{total, byte_at, IsFilled, IsValid}
use whais.Pastra.Container.Prepare.{CanGrow}
use whais.Pastra.Container.Write.{Spliced, write-Spliced}
use whais.Pastra.Container.Read.{Fetched, read-Fetched}
use whais.Pastra.Container.Piece.{
  SameContent-total, SameContent-byte_at, SameContent-IsValid, SameContent-CanGrow,
}

-- After `d` bytes: from `a` on stands what stood `gap` bytes further up.
pub record Moved (c : Container) (a gap d : ℕ) (c' : Container) : Type 0 where
  pub valid : IsValid c'
  pub can_grow : CanGrow c'
  pub same_max : c'.max_file_size ≡ c.max_file_size
  pub same_removable : c'.removable ≡ c.removable
  pub same_total : total c' ≡ total c
  pub bytes :
      (i : ℕ)
      → byte_at c' i ≡ (if leb a i && ltb i (a + d) then byte_at c (i + gap) else byte_at c i)

module _ (c : Container) (a gap : ℕ) (wide : 0 < gap) where
  Moved-byte :
      (d from to step : ℕ) (got : List ℕ) (c0 c1 c2 : Container)
      → from ≡ a + d
      → to ≡ a + gap + d
      → Moved c a gap d c0
      → Fetched c0 to step got c1
      → Spliced c1 from got c2
      → (i : ℕ)
      → byte_at c2 i
        ≡ (if leb a i && ltb i (a + (d + step)) then byte_at c (i + gap) else byte_at c i)
  Moved-byte d from to step got c0 c1 c2 ef et m r s i =
      let place : from ≤ i → to + (i - from) ≡ i + gap = λ h. omega arith in
      ground (
        arith,
        s.bytes i,
        r.long,
        r.bytes (i - from),
        SameContent-byte_at r.same i,
        m.bytes i,
        m.bytes (i + gap),
        place,
      )

  -- One round reads `step` bytes behind the gap and writes them before it.
  round-Moved :
      (d from to step : ℕ) (got : List ℕ) (c0 c1 c2 : Container)
      → from ≡ a + d
      → to ≡ a + gap + d
      → a + gap + d + step ≤ total c
      → Moved c a gap d c0
      → Fetched c0 to step got c1
      → IsFilled c2
      → CanGrow c2
      → Spliced c1 from got c2
      → Moved c a gap (d + step) c2
  round-Moved d from to step got c0 c1 c2 ef et h m r f g s =
      let same : total c2 ≡ total c =
        omega (arith, s.grown, r.long, m.same_total, SameContent-total r.same) in
      record {
        valid = record {
          filled = f;
          addressable = omega (arith, same, m.valid.addressable, m.same_total);
        };
        can_grow = g;
        same_max = s.same_max ∙ r.same.same_max ∙ m.same_max;
        same_removable = s.same_removable ∙ r.same.same_removable ∙ m.same_removable;
        same_total = same;
        bytes = λ i. Moved-byte d from to step got c0 c1 c2 ef et m r s i;
      }

  step_of : ℕ → ℕ
  step_of to = min 1024 (total c - to)

  -- The round that the loop makes while bytes are left behind the gap.
  move_down-round :
      (fuel to from : ℕ) (got : List ℕ) (c0 c1 c2 : Container)
      → to < total c
      → total c + 1024 < 2 ^ 64
      → read (suc (step_of to)) to (step_of to) c0 ≡ done got c1
      → write (suc (step_of to)) from got c1 ≡ done tt c2
      → move_down (suc fuel) to from (total c) c0
        ≡ move_down fuel (add64 to (step_of to)) (add64 from (step_of to)) (total c) c2
  unfolding move_down
  move_down-round fuel to from got c0 c1 c2 more small e1 e2 =
      let chunk : (if ltb (total c) (add64 1024 to) then total c - to else 1024) ≡ step_of to =
        unfold step_of in ground arith in
      rw (lt→ltb _ _ more, chunk, e1, e2)

  pub move_down-Moved :
      (fuel d from to : ℕ) (c0 : Container)
      → from ≡ a + d
      → to ≡ a + gap + d
      → to ≤ total c
      → total c + 1024 < 2 ^ 64
      → Moved c a gap d c0
      → total c - to < fuel
      → (c' : Container) × (move_down fuel to from (total c) c0 ≡ done tt c')
        × Moved c a gap (total c - (a + gap)) c'
  unfolding step_of
  move_down-Moved zero d from to c0 ef et h small m enough = elim enough [ ]
  move_down-Moved (suc fuel) d from to c0 ef et h small m enough = elim (dec_lt to (total c)) [
    | no end ↦
        let all : d ≡ total c - (a + gap) = omega arith in
        (c0, unfold move_down in ground arith, rw all at m)
    | yes more ↦
        let n = step_of to in
        let (got, c1, e1, r) =
          read-Fetched (suc n) c0 to n m.valid (omega (arith, m.same_total)) (omega arith) in
        let (c2, e2, f, g, s) =
          write-Spliced (suc n) c1 from got (SameContent-IsValid r.same m.valid).filled
            (SameContent-CanGrow r.same m.can_grow)
            (omega (arith, SameContent-total r.same, m.same_total)) (omega (arith, r.long))
            (omega (arith, r.long)) in
        let m2 = round-Moved d from to n got c0 c1 c2 ef et (omega arith) m r f g s in
        let (c3, e3, m3) =
          move_down-Moved fuel (d + n) (add64 from n) (add64 to n) c2 (omega arith) (omega arith)
            (omega arith) small m2 (omega arith) in
        (c3, move_down-round fuel to from got c0 c1 c2 more small e1 e2 ∙ e3, m3)
  ]
