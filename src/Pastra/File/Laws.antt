-- ===== src/Pastra/File/Laws.antt =====
-- What a write changes, byte by byte.
use whais.Prelude.{
  ℕ, ◌+◌, ◌-◌, ◌≤◌, ◌≡◌, List, ◌++◌, some, length, take, drop, replicate, get_elem?, ltb, leb, ◌&&◌,
  if◌then◌else◌, arith, max, length-append, length-take, length-drop, length-replicate,
  get_elem?-append, get_elem?-take, get_elem?-drop,
}
use whais.Pastra.File.{File, write_at, read, seek}

pub length-write_at :
    (pos : ℕ) (buf bytes : List ℕ)
    → pos ≤ length bytes
    → length (write_at pos buf bytes) ≡ max (length bytes) (pos + length buf)
unfolding write_at
length-write_at pos buf bytes h =
    omega (arith, length-append {0}, length-take {0}, length-drop {0}, length-replicate {0})

pub get_elem?-write_at :
    (pos : ℕ) (buf bytes : List ℕ) (i : ℕ)
    → pos ≤ length bytes
    → get_elem? (write_at pos buf bytes) i ≡ (
        if leb pos i && ltb i (pos + length buf)
        then get_elem? buf (i - pos)
        else get_elem? bytes i)
unfolding write_at
get_elem?-write_at pos buf bytes i h = ground (
  arith,
  get_elem?-append (take pos bytes ++ replicate (pos - length bytes) 0)
      (buf ++ drop (pos + length buf) bytes) i,
  get_elem?-append (take pos bytes) (replicate (pos - length bytes) 0) i,
  get_elem?-append buf (drop (pos + length buf) bytes) (i - pos),
  length-append (take pos bytes) (replicate (pos - length bytes) 0),
  length-take pos bytes,
  length-replicate {A = ℕ} (pos - length bytes) 0,
  get_elem?-take pos bytes i,
  get_elem?-drop (pos + length buf) bytes (i - pos - length buf),
)

pub read-seek :
    (pos count : ℕ) (f : File)
    → pos + count ≤ length f.bytes
    → read count (seek pos f)
      ≡ some (take count (drop pos f.bytes), record f { position = pos + count })
unfolding read seek
read-seek pos count f h = ground arith
