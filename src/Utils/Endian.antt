-- ===== src/Utils/Endian.antt =====
-- utils/include/endianness.h: words stored in a byte buffer in either byte order.
pub mod RoundTrip
use whais.Prelude.{ℕ, ◌*◌, ◌/◌, ◌%◌, ◌^◌, bit_and, bit_or, List, get_or, set}

-- `from[i]`: the callers give pointers to enough bytes, so the default is not read.
abbrev pub byte : List ℕ → ℕ → ℕ
byte from i = get_or from i 0

-- `result <<= 8; result |= b` on an unsigned word of `w` bits.
unfoldable pub shift_in : ℕ → ℕ → ℕ → ℕ
shift_in w result b = bit_or (result * 2 ^ 8 % 2 ^ w) b

-- `(value >> shift) & 0xFF`
unfoldable pub byte_of : ℕ → ℕ → ℕ
byte_of value shift = bit_and (value / 2 ^ shift) 0xff

pub load_le_int16 : List ℕ → ℕ
load_le_int16 from = shift_in 16 (byte from 1) (byte from 0)

pub load_le_int32 : List ℕ → ℕ
load_le_int32 from =
    shift_in 32 (shift_in 32 (shift_in 32 (byte from 3) (byte from 2)) (byte from 1)) (byte from 0)

pub load_le_int64 : List ℕ → ℕ
load_le_int64 from =
    let result = byte from 7 in
    let result = shift_in 64 result (byte from 6) in
    let result = shift_in 64 result (byte from 5) in
    let result = shift_in 64 result (byte from 4) in
    let result = shift_in 64 result (byte from 3) in
    let result = shift_in 64 result (byte from 2) in
    let result = shift_in 64 result (byte from 1) in shift_in 64 result (byte from 0)

pub store_le_int16 : ℕ → List ℕ → List ℕ
store_le_int16 value to = let to = set to 0 (bit_and value 0xff) in set to 1 (byte_of value 8)

pub store_le_int32 : ℕ → List ℕ → List ℕ
store_le_int32 value to =
    let to = set to 0 (bit_and value 0xff) in
    let to = set to 1 (byte_of value 8) in
    let to = set to 2 (byte_of value 16) in set to 3 (byte_of value 24)

pub store_le_int64 : ℕ → List ℕ → List ℕ
store_le_int64 value to =
    let to = set to 0 (bit_and value 0xff) in
    let to = set to 1 (byte_of value 8) in
    let to = set to 2 (byte_of value 16) in
    let to = set to 3 (byte_of value 24) in
    let to = set to 4 (byte_of value 32) in
    let to = set to 5 (byte_of value 40) in
    let to = set to 6 (byte_of value 48) in set to 7 (byte_of value 56)

pub load_ge_int16 : List ℕ → ℕ
load_ge_int16 from = shift_in 16 (byte from 0) (byte from 1)

pub load_ge_int32 : List ℕ → ℕ
load_ge_int32 from =
    shift_in 32 (shift_in 32 (shift_in 32 (byte from 0) (byte from 1)) (byte from 2)) (byte from 3)

pub load_ge_int64 : List ℕ → ℕ
load_ge_int64 from =
    let result = byte from 0 in
    let result = shift_in 64 result (byte from 1) in
    let result = shift_in 64 result (byte from 2) in
    let result = shift_in 64 result (byte from 3) in
    let result = shift_in 64 result (byte from 4) in
    let result = shift_in 64 result (byte from 5) in
    let result = shift_in 64 result (byte from 6) in shift_in 64 result (byte from 7)

pub store_ge_int16 : ℕ → List ℕ → List ℕ
store_ge_int16 value to = let to = set to 1 (bit_and value 0xff) in set to 0 (byte_of value 8)

pub store_ge_int32 : ℕ → List ℕ → List ℕ
store_ge_int32 value to =
    let to = set to 3 (bit_and value 0xff) in
    let to = set to 2 (byte_of value 8) in
    let to = set to 1 (byte_of value 16) in set to 0 (byte_of value 24)

pub store_ge_int64 : ℕ → List ℕ → List ℕ
store_ge_int64 value to =
    let to = set to 7 (bit_and value 0xff) in
    let to = set to 6 (byte_of value 8) in
    let to = set to 5 (byte_of value 16) in
    let to = set to 4 (byte_of value 24) in
    let to = set to 3 (byte_of value 32) in
    let to = set to 2 (byte_of value 40) in
    let to = set to 1 (byte_of value 48) in set to 0 (byte_of value 56)
