-- ===== src/Pastra/Container/RoundTrip.antt =====
-- `Write` and then `Read` of the same place.
use whais.Prelude.{
  ℕ, suc, ◌+◌, ◌^◌, ◌≤◌, ◌<◌, ◌≡◌, refl, ap, ◌∙◌, List, [], ◌∷◌, length, get_elem?, arith,
}
use whais.Pastra.Container.{Container, done, size, write, read, and_then}
use whais.Pastra.Container.Invariant.{IsValid}
use whais.Pastra.Container.Prepare.{CanGrow}
use whais.Pastra.Container.Write.{write_lem}
use whais.Pastra.Container.Read.{read_lem}

same_elements {ℓ} :
    {A : Type ℓ} (xs ys : List A)
    → length xs ≡ length ys
    → ((j : ℕ) → j < length ys → get_elem? xs j ≡ get_elem? ys j)
    → xs ≡ ys
same_elements [] [] e h = refl
same_elements [] (y ∷ ys) e h = absurd (omega arith)
same_elements (x ∷ xs) [] e h = absurd (omega arith)
same_elements (x ∷ xs) (y ∷ ys) e h =
    let first : x ≡ y = ground (arith, h 0) in
    let rest : xs ≡ ys = same_elements xs ys (omega arith) (λ j hj. ground (arith, h (suc j))) in
    rw (first, rest) refl

written_read :
    (c c1 c2 : Container) (to : ℕ) (buf got : List ℕ)
    → write (suc (length buf)) to buf c ≡ done tt c1
    → read (suc (length buf)) to (length buf) c1 ≡ done got c2
    → got ≡ buf
    → and_then
        (write (suc (length buf)) to buf c)
        (λ _ c'. read (suc (length buf)) to (length buf) c')
      ≡ done buf c2
written_read c c1 c2 to buf got e1 e2 e3 = rw e1 (e2 ∙ ap (λ bytes. done bytes c2) e3)

-- What is written at or below the end of a valid container, within 64 bits and with free names for
-- the units to come, is read back from there.
pub read-write :
    (c : Container) (to : ℕ) (buf : List ℕ)
    → IsValid c
    → CanGrow c
    → to ≤ size c
    → to + length buf < 2 ^ 64
    → (c' : Container) × (and_then
          (write (suc (length buf)) to buf c)
          (λ _ c1. read (suc (length buf)) to (length buf) c1)
        ≡ done buf c')
read-write c to buf v g h fits =
    let (c1, e1, v1, grown, bytes) = write_lem c to buf v g h fits in
    let (got, c2, e2, long, same, _, _, _) =
      read_lem c1 to (length buf) v1 (omega (arith, grown)) in
    let read_back : got ≡ buf =
      same_elements got buf long (λ j hj. ground (arith, same j hj, bytes (to + j))) in
    (c2, written_read c c1 c2 to buf got e1 e2 read_back)
