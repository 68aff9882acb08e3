-- ===== src/Pastra/Container.antt =====
-- dbs/pastra/ps_container.cpp, class FileContainer: one sequence of bytes kept in files of
-- `max_file_size` bytes, each full but the last one.
pub mod Invariant
pub mod Prepare
pub mod Write
pub mod Piece
pub mod Read
pub mod Move
pub mod Cut
pub mod Colapse
pub mod RoundTrip
pub mod Gap
mod Tests
use whais.Prelude.{
  ℕ, zero, suc, ◌+◌, ◌-◌, ◌*◌, ◌/◌, ◌%◌, ◌^◌, Bool, true, false, not, ◌&&◌, ◌||◌, Option, none,
  some, List, [], ◌∷◌, ◌++◌, length, get_or, set, take, drop, ltb, leb, ◌==◌, if◌then◌else◌,
}
use whais.Pastra.File
use whais.Pastra.File.{File, new_file}

-- The codes of WFileContainerException, and the FileException of a failed system call.
pub data Error : Type 0 where
  invalid_parameters : Error
  container_invalid : Error
  invalid_access_position : Error
  file_os_io_error : Error
  file_exception : Error

-- `leftover k` says that unit `k`, which is not open, has its name taken on the disk already, and
-- `removable k` that the system lets the file of unit `k` be removed.
pub record Container : Type 0 where
  pub max_file_size : ℕ
  pub units : List File
  pub ignore_existing : Bool
  pub to_remove : Bool
  pub leftover : ℕ → Bool
  pub removable : ℕ → Bool

-- A call returns or throws, and leaves a container behind in both cases. `stuck` is no outcome of
-- the program: the fuel of the model ran out.
pub data Outcome (A : Type 0) : Type 0 where
  done : A → Container → Outcome A
  failed : Error → Container → Outcome A
  stuck : Outcome A

abbrev pub and_then : {A B : Type 0} → Outcome A → (A → Container → Outcome B) → Outcome B
and_then (done a c) k = k a c
and_then (failed e c) k = failed e c
and_then stuck k = stuck

-- Sums and differences of `uint64_t`.
abbrev pub add64 : ℕ → ℕ → ℕ
add64 a b = (a + b) % 2 ^ 64

abbrev pub sub64 : ℕ → ℕ → ℕ
sub64 a b = (a + 2 ^ 64 - b) % 2 ^ 64

-- `mFilesHandles[k]`, read within bounds only.
abbrev pub file_of : Container → ℕ → File
file_of c k = get_or c.units k new_file

abbrev pub count : Container → ℕ
count c = length c.units

abbrev pub with_file : Container → ℕ → File → Container
with_file c k f = record c { units = set c.units k f }

unfoldable pub size : Container → ℕ
size c =
    if count c == 0
    then 0
    else ((count c - 1) * c.max_file_size + File.size (file_of c (count c - 1))) % 2 ^ 64

-- `ExtendContainer`: the next unit is created. Creation is exclusive unless existing data is to be
-- ignored, in which case the file is emptied.
unfoldable pub extend_container : Container → Outcome (Unit {0})
extend_container c =
    if not c.ignore_existing && c.leftover (count c)
    then failed file_exception c
    else done tt (record c { units = c.units ++ new_file ∷ [] })

-- The checks at the head of `Write`, which add the next unit where the write begins it.
unfoldable pub prepare_write : ℕ → Container → Outcome (Unit {0})
unfolding extend_container
prepare_write to c =
    let index = to / c.max_file_size in
    let position = to % c.max_file_size in
    if ltb (count c) index
    then failed invalid_access_position c
    else if index == count c
    then if not (position == 0) then failed invalid_access_position c else extend_container c
    else done tt c

-- How much of the write goes into the unit at hand.
unfoldable pub chunk_size : ℕ → ℕ → ℕ → ℕ
chunk_size max position size = if ltb max (add64 size position) then sub64 max position else size

-- `Write(to, size, buffer)`, with `size` the length of the buffer. The size that `File::Write` and
-- `File::Read` take is a 32-bit word.
unfoldable pub write : ℕ → ℕ → List ℕ → Container → Outcome (Unit {0})
unfolding prepare_write chunk_size File.seek File.write File.write_at
write zero to buffer c = stuck
write (suc fuel) to buffer c =
    let index = to / c.max_file_size in
    let position = to % c.max_file_size in
    let actual = chunk_size c.max_file_size position (length buffer) in
    and_then (prepare_write to c) λ _ c'.
      let file = file_of c' index in
      let c'' =
        with_file c' index (File.write (take (actual % 2 ^ 32) buffer) (File.seek position file)) in
      let rest = write fuel (add64 to actual) (drop actual buffer) c'' in
      if ltb (File.size file) position
      then failed invalid_access_position c'
      else if ltb actual (length buffer)
      then rest
      else done tt c''

-- How much of the read comes from the file at hand.
unfoldable pub read_size : ℕ → ℕ → ℕ → ℕ
read_size file_size position size =
    if ltb file_size (add64 size position) then sub64 file_size position else size

-- `Read(from, size, buffer)` returns what it stores in the buffer.
unfoldable pub read : ℕ → ℕ → ℕ → Container → Outcome (List ℕ)
read zero from wanted c = stuck
read (suc fuel) from wanted c =
    let index = from / c.max_file_size in
    let position = from % c.max_file_size in
    let file = file_of c index in
    let actual = read_size (File.size file) position wanted in
    let rest = λ (bytes : List ℕ) (file' : File).
      and_then (read fuel (add64 from actual) (wanted - actual) (with_file c index file'))
        λ more c'. done (bytes ++ more) c' in
    if wanted == 0
    then done [] c
    else if ltb (count c) index || ltb (size c) (add64 from wanted)
    then failed invalid_access_position c
    else elim (File.read (actual % 2 ^ 32) (File.seek position file)) [
      | none ↦ failed file_exception (with_file c index (File.seek position file))
      | some (bytes, file') ↦
          if ltb actual wanted then rest bytes file' else done bytes (with_file c index file')
    ]

-- What an `int` keeps of a number, as it is read back for a `uint64_t`.
unfoldable pub as_int : ℕ → ℕ
as_int n = let w = n % 2 ^ 32 in if ltb w (2 ^ 31) then w else w + (2 ^ 64 - 2 ^ 32)

-- The loop of `Colapse` that moves the bytes behind the gap down, 1024 at a time.
unfoldable pub move_down : ℕ → ℕ → ℕ → ℕ → Container → Outcome (Unit {0})
move_down zero to from container_size c = stuck
move_down (suc fuel) to from container_size c =
    let step = if ltb container_size (add64 1024 to) then container_size - to else 1024 in
    let rest = and_then (read (suc step) to step c) λ bytes c1.
      and_then (write (suc step) from bytes c1)
        λ _ c2. move_down fuel (add64 to step) (add64 from step) container_size c2 in
    if ltb to container_size then rest else done tt c

-- The last unit is closed, removed from the disk and forgotten.
abbrev pub forget_last : Container → Container
forget_last c =
    let unit = count c - 1 in
    record c {
      units = take unit c.units;
      leftover = λ k. if k == unit then false else c.leftover k;
    }

-- The loop of `Colapse` that removes units from the back, over the number of rounds.
unfoldable pub remove_units : ℕ → Container → Outcome (Unit {0})
remove_units zero c = done tt c
remove_units (suc rounds) c =
    let rest = remove_units rounds (forget_last c) in
    if c.removable (count c - 1) then rest else failed file_os_io_error c

-- The end of `Colapse`: the unit that holds the new end is cut there, and those behind it go.
unfoldable pub cut : ℕ → Container → Outcome (Unit {0})
cut new_size c =
    let last_unit = as_int (new_size / c.max_file_size) in
    let last_unit_size = as_int (new_size % c.max_file_size) in
    if new_size == 0
    then remove_units (count c) c
    else remove_units (count c - (last_unit + 1))
        (with_file c last_unit (File.set_size last_unit_size (file_of c last_unit)))

-- `Colapse(from, to)`: the bytes from `from` up to `to` are taken out.
unfoldable pub colapse : ℕ → ℕ → ℕ → Container → Outcome (Unit {0})
colapse fuel from to c =
    let interval_size = sub64 to from in
    let container_size = size c in
    if ltb to from || ltb container_size to
    then failed invalid_parameters c
    else if interval_size == 0
    then done tt c
    else and_then (move_down fuel to from container_size c)
        λ _ c'. cut (sub64 container_size interval_size) c'
