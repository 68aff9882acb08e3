-- ===== src/Pastra/Container/Tests.antt =====
-- A container of two units at concrete inputs.
use whais.Prelude.{
  ℕ, zero, suc, ◌+◌, ◌-◌, ◌<◌, ◌≤◌, ◌≡◌, refl, true, false, List, [], ◌∷◌, length, get_elem?, max,
  arith, ltb, leb, ◌&&◌, if◌then◌else◌,
}
use whais.Pastra.File
use whais.Pastra.File.{File}
use whais.Pastra.Container.{Container, done, size, file_of, write, read, colapse, and_then}
use whais.Pastra.Container.Invariant.{byte_at, IsFilled, IsValid}
use whais.Pastra.Container.Prepare.{CanGrow}
use whais.Pastra.Container.Write.{write_lem}
use whais.Pastra.Container.Read.{read_lem}
use whais.Pastra.Container.RoundTrip.{read-write}
use whais.Pastra.Container.Gap.{write-gap}
use whais.Pastra.Container.Colapse.{IsModest, Collapsed, colapse_lem}

abbrev two_units : Container
two_units = record {
  max_file_size = 4;
  units =
      record { bytes = 1 ∷ 2 ∷ 3 ∷ 4 ∷ []; position = 0 }
      ∷ record { bytes = 5 ∷ 6 ∷ []; position = 0 }
      ∷ [];
  ignore_existing = false;
  to_remove = false;
  leftover = λ k. false;
  removable = λ k. true;
}

two_units-size : size two_units ≡ 6
unfolding size
two_units-size = refl

first_full : (k : ℕ) → suc k < 2 → File.size (file_of two_units k) ≡ 4
first_full zero h = refl
first_full (suc k) h = absurd (omega arith)

none_large : (k : ℕ) → k < 2 → File.size (file_of two_units k) ≤ 4
none_large zero h = omega arith
none_large (suc zero) h = omega arith
none_large (suc (suc k)) h = absurd (omega arith)

two_units-IsValid : IsValid two_units
two_units-IsValid = record {
  filled = record {
    max_pos = omega arith;
    max_word = omega arith;
    full = first_full;
    small = none_large;
  };
  addressable = omega arith;
}

two_units-CanGrow : CanGrow two_units
two_units-CanGrow k h = refl

two_units-IsModest : IsModest two_units
two_units-IsModest = record { room = omega arith; narrow = omega arith; few = omega arith }

in_size : (n : ℕ) → n ≤ 6 → n ≤ size two_units
in_size n h = rw two_units-size h

abbrev new_bytes : List ℕ
new_bytes = 7 ∷ 8 ∷ 9 ∷ 10 ∷ 11 ∷ 12 ∷ []

write_lem_example :
    (c' : Container) × (write 7 5 new_bytes two_units ≡ done tt c')
    × IsValid c'
    × (size c' ≡ max (size two_units) 11)
    × ((i : ℕ)
        → byte_at c' i
          ≡ (if leb 5 i && ltb i 11 then get_elem? new_bytes (i - 5) else byte_at two_units i))
write_lem_example =
    write_lem two_units 5 new_bytes two_units-IsValid two_units-CanGrow (in_size 5 (omega arith))
      (omega arith)

read_lem_example :
    (got : List ℕ) × (c' : Container) × (read 4 3 3 two_units ≡ done got c')
    × (length got ≡ 3)
    × ((j : ℕ) → j < 3 → get_elem? got j ≡ byte_at two_units (3 + j))
    × IsValid c'
    × (size c' ≡ size two_units)
    × ((i : ℕ) → byte_at c' i ≡ byte_at two_units i)
read_lem_example = read_lem two_units 3 3 two_units-IsValid (in_size 6 (omega arith))

read-write_example :
    (c' : Container) × (and_then (write 7 5 new_bytes two_units) (λ _ c1. read 7 5 6 c1)
      ≡ done new_bytes c')
read-write_example =
    read-write two_units 5 new_bytes two_units-IsValid two_units-CanGrow (in_size 5 (omega arith))
      (omega arith)

write-gap_example :
    (c' : Container) × (write 4 8 (7 ∷ 8 ∷ 9 ∷ []) two_units ≡ done tt c') × ¬ IsFilled c'
write-gap_example =
    write-gap two_units (7 ∷ 8 ∷ 9 ∷ []) two_units-IsValid two_units-CanGrow (omega arith)
      (omega arith) (omega arith)

colapse_lem_example :
    (c' : Container) × (colapse 7 1 4 two_units ≡ done tt c') × Collapsed two_units 1 4 c'
colapse_lem_example =
    colapse_lem 7 1 4 two_units two_units-IsValid two_units-CanGrow (λ k. refl) two_units-IsModest
      (omega arith) (in_size 4 (omega arith)) (rw two_units-size (omega arith))
