-- ===== src/Pastra/Container/Gap.antt =====
-- `Write` behind the end, where a unit would begin if the last one were full.
use whais.Prelude.{
  ℕ, suc, ◌-◌, ◌*◌, ◌/◌, ◌%◌, ◌^◌, ◌≤◌, ◌<◌, ◌≡◌, List, [], ◌∷◌, ◌++◌, length, take, arith,
  length-set, length-append, get_or-set, get_or-snoc,
}
use native.Mathlib.Nat.{mod-eq_of_lt, mul-div_cancel, mul-mod_left}
use whais.Pastra.File
use whais.Pastra.File.{File, new_file}
use whais.Pastra.Container.{
  Container, done, count, file_of, with_file, write, prepare_write, chunk_size,
}
use whais.Pastra.Container.Invariant.{IsFilled, IsValid}
use whais.Pastra.Container.Prepare.{CanGrow, prepare_write-at_end}

gap_round :
    (c c1 : Container) (to : ℕ) (buf : List ℕ)
    → to / c.max_file_size ≡ count c
    → to % c.max_file_size ≡ 0
    → length buf ≤ c.max_file_size
    → c.max_file_size < 2 ^ 32
    → prepare_write to c ≡ done tt c1
    → write (suc (length buf)) to buf c
      ≡ done tt (
          with_file c1
            (count c)
            (File.write (take (length buf) buf) (File.seek 0 (file_of c1 (count c)))))
unfolding write
gap_round c c1 to buf q r fits small e =
    let chunk : chunk_size c.max_file_size 0 (length buf) ≡ length buf =
      unfold chunk_size in ground arith in
    let word : length buf % 2 ^ 32 ≡ length buf = mod-eq_of_lt (omega arith) in
    rw (e, q, r, chunk, word) (ground arith)

left_open :
    (c : Container) (f : File)
    → 0 < count c
    → File.size (file_of c (count c - 1)) < c.max_file_size
    → ¬ IsFilled (with_file (record c { units = c.units ++ new_file ∷ [] }) (count c) f)
left_open c f some open_end filled =
    let c1 : Container = record c { units = c.units ++ new_file ∷ [] } in
    let longer = length-append c.units (new_file ∷ []) in
    let same_length = length-set c1.units (count c) f in
    let full = filled.full (count c - 1) (omega (arith, longer, same_length)) in
    ground (
      arith,
      full,
      get_or-set c1.units (count c) (count c - 1) f new_file (omega (arith, longer)),
      get_or-snoc c.units new_file (count c - 1) new_file,
    )

-- Where the last unit of a valid container is not full and the names of the units to come are free,
-- a write of at most a unit at the place behind it where the next unit would begin, which lies
-- behind the end, is taken: the call returns, and the units are not filled any more.
pub write-gap :
    (c : Container) (buf : List ℕ)
    → IsValid c
    → CanGrow c
    → 0 < count c
    → File.size (file_of c (count c - 1)) < c.max_file_size
    → length buf ≤ c.max_file_size
    → (c' : Container) × (write (suc (length buf)) (count c * c.max_file_size) buf c ≡ done tt c')
      × ¬ IsFilled c'
write-gap c buf v g some open_end fits =
    let to = count c * c.max_file_size in
    let q : to / c.max_file_size ≡ count c = mul-div_cancel (count c) v.filled.max_pos in
    let r : to % c.max_file_size ≡ 0 = mul-mod_left (count c) c.max_file_size in
    let c1 : Container = record c { units = c.units ++ new_file ∷ [] } in
    let e = prepare_write-at_end c to q r (g (count c) (omega arith)) in
    (_, gap_round c c1 to buf q r fits v.filled.max_word e, left_open c _ some open_end)
