-- ===== src/Pastra/File.antt =====
-- custom/cpp_support/wfile.cpp over custom/posix/fileio.c: an open file is its bytes and a position.
-- The system's read and write do not fail here; a read behind the end is the error that
-- `whf_read` makes of it. The size that the class caches is the length of the bytes.
pub mod Laws
use whais.Prelude.{
  ℕ, zero, suc, ◌+◌, ◌-◌, ◌≤◌, List, [], ◌∷◌, ◌++◌, Option, none, some, length, take, drop,
  replicate, ltb, if◌then◌else◌,
}

pub record File : Type 0 where
  pub bytes : List ℕ
  pub position : ℕ

abbrev pub new_file : File
new_file = record { bytes = []; position = 0 }

-- `File::Size() const`
abbrev pub size : File → ℕ
size f = length f.bytes

-- `File::Seek(where, WH_SEEK_BEGIN)`
unfoldable pub seek : ℕ → File → File
seek to f = record f { position = to }

-- The bytes with `buf` written from `pos` on; what lies between the end and `pos` is zeros.
unfoldable pub write_at : ℕ → List ℕ → List ℕ → List ℕ
write_at pos buf bytes =
    (take pos bytes ++ replicate (pos - length bytes) 0) ++ (buf ++ drop (pos + length buf) bytes)

-- `File::Write`
unfoldable pub write : List ℕ → File → File
write buf f = record f {
  bytes = write_at f.position buf f.bytes;
  position = f.position + length buf;
}

-- `File::Read`: `none` where fewer bytes are left.
unfoldable pub read : ℕ → File → Option (List ℕ × File)
read count f =
    if ltb (length f.bytes) (f.position + count)
    then none
    else some (take count (drop f.position f.bytes), record f { position = f.position + count })

-- `File::Size(size)`: `ftruncate`.
unfoldable pub set_size : ℕ → File → File
set_size n f = record f { bytes = take n f.bytes ++ replicate (n - length f.bytes) 0 }
