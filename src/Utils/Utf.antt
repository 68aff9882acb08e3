-- ===== src/Utils/Utf.antt =====
-- utils/src/wutf.c, with the constants of utils/include/wutf.h: one code point to and from UTF-8
-- and UTF-16 code units, and the length of zero-terminated strings. A function with an output
-- pointer returns the pair of its result and what it stores. Where the source asserts and then
-- returns 0, the model returns 0: that is a build without assertions.
pub mod Bytes
pub mod Utf8
pub mod Utf16
pub mod Strings
use whais.Prelude.{
  ℕ, zero, suc, ◌+◌, ◌-◌, ◌*◌, ◌/◌, ◌%◌, ◌^◌, bit_and, bit_or, List, [], ◌∷◌, get_or, set, drop,
  length, ltb, leb, ◌==◌, if◌then◌else◌, ◌&&◌, ◌||◌,
}

-- `str[i]`, where the caller guarantees enough code units.
abbrev pub unit : List ℕ → ℕ → ℕ
unit str i = get_or str i 0

-- `~mask` as a 32-bit word, and `cp <<= k` on one.
abbrev pub flip : ℕ → ℕ
flip mask = 0xffff_ffff - mask

abbrev pub shl : ℕ → ℕ → ℕ
shl cp k = cp * 2 ^ k % 2 ^ 32

unfoldable pub utf8_cu_count : ℕ → ℕ
utf8_cu_count u =
    if ltb u 0x80
    then 1
    else if ltb u 0xc0
    then 0
    else if ltb u 0xe0
    then 2
    else if ltb u 0xf0
    then 3
    else if ltb u 0xf8
    then 4
    else 0

unfoldable pub utf16_cu_count : ℕ → ℕ
utf16_cu_count u = if leb 0xd800 u && leb u 0xdfff then 2 else 1

-- `*outCodePoint |= utf8Str[0] & ~mask`, and one more unit shifted in.
unfoldable pub lead : ℕ → ℕ → ℕ
lead u mask = bit_or 0 (bit_and u (flip mask))

unfoldable pub trail : ℕ → ℕ → ℕ
trail cp u = bit_or (shl cp 6) (bit_and u (flip 0x80))

unfoldable pub load_utf8_cp : List ℕ → ℕ × ℕ
load_utf8_cp str =
    let count = utf8_cu_count (unit str 0) in
    if count == 1
    then (count, lead (unit str 0) 0x00)
    else if count == 2
    then (count, trail (lead (unit str 0) 0xc0) (unit str 1))
    else if count == 3
    then (count, trail (trail (lead (unit str 0) 0xe0) (unit str 1)) (unit str 2))
    else if count == 4
    then (
      count,
      trail (trail (trail (lead (unit str 0) 0xf0) (unit str 1)) (unit str 2)) (unit str 3),
    )
    else (0, 0)

unfoldable pub load_utf16_cp : List ℕ → ℕ × ℕ
load_utf16_cp str =
    let high = shl (unit str 0 - 0xd800) 10 in
    if leb 0xd800 (unit str 0) && leb (unit str 0) 0xdbff
    then if leb 0xdc00 (unit str 1) && leb (unit str 1) 0xdfff
      then (2, (high + (unit str 1 - 0xdc00) + 0x10000) % 2 ^ 32)
      else (0, high)
    else (1, unit str 0)

-- What is stored in a byte of `dest` is cut to eight bits.
unfoldable pub lead_unit : ℕ → ℕ → ℕ
lead_unit x mask = bit_or (bit_and x 0xff) mask % 256

unfoldable pub trail_unit : ℕ → ℕ
trail_unit x = bit_or (bit_and x 0x3f) 0x80 % 256

unfoldable pub store_utf8_cp : ℕ → List ℕ → ℕ × List ℕ
store_utf8_cp cp dest =
    if ltb cp 0x80
    then (1, set dest 0 (bit_and cp 0xff))
    else if ltb cp 0x800
    then (2, set (set dest 0 (lead_unit (cp / 2 ^ 6) 0xc0)) 1 (trail_unit cp))
    else if ltb cp 0x10000
    then (
      3,
      set (set (set dest 0 (lead_unit (cp / 2 ^ 12) 0xe0)) 1 (trail_unit (cp / 2 ^ 6))) 2
          (trail_unit cp),
    )
    else if ltb cp 0x200000
    then (
      4,
      set
          (set (set (set dest 0 (lead_unit (cp / 2 ^ 18) 0xf0)) 1 (trail_unit (cp / 2 ^ 12))) 2
            (trail_unit (cp / 2 ^ 6)))
          3 (trail_unit cp),
    )
    else (0, dest)

unfoldable pub utf16_store_size : ℕ → ℕ
utf16_store_size cp =
    if leb 0xd800 cp && leb cp 0xdfff
    then 0
    else if ltb 0x10ffff cp
    then 0
    else if ltb cp 0x10000
    then 1
    else 2

unfoldable pub store_utf16_cp : ℕ → List ℕ → ℕ × List ℕ
unfolding utf16_store_size
store_utf16_cp cp dest =
    let size = utf16_store_size cp in
    let c = cp - 0x10000 in
    if size == 1
    then (1, set dest 0 (cp % 2 ^ 16))
    else if size == 2
    then (
      2,
      set (set dest 0 ((0xd800 + bit_and (c / 2 ^ 10) 0x3ff) % 2 ^ 16)) 1
          ((0xdc00 + bit_and c 0x3ff) % 2 ^ 16),
    )
    else (0, dest)

unfoldable pub utf8_store_size : ℕ → ℕ
utf8_store_size cp =
    if ltb cp 0x80
    then 1
    else if ltb cp 0x800
    then 2
    else if ltb cp 0x10000
    then 3
    else if ltb cp 0x200000
    then 4
    else 0

-- How the length of a string comes out: a count, the source's -1, a read behind the end of the
-- array, or (for the model alone) the fuel used up.
pub data Length : Type 0 where
  counted : ℕ → Length
  invalid : Length
  overrun : Length
  stuck : Length

-- `while (*str != 0)`, over what is left of the array; a step moves by the count of the first unit.
-- `result` is an `int`, whose overflow is taken as that of its 32 bits: 2 ^ 31 and above are the
-- numbers below 0.
unfoldable pub strlen_loop : (ℕ → ℕ) → ℕ → List ℕ → ℕ → Length
strlen_loop cu_count zero str result = stuck
strlen_loop cu_count (suc fuel) [] result = overrun
strlen_loop cu_count (suc fuel) (u ∷ str) result =
    let size = cu_count u in
    let rest = strlen_loop cu_count fuel (drop size (u ∷ str)) ((result + 1) % 2 ^ 32) in
    if u == 0 then counted result else if size == 0 then invalid else rest

unfoldable pub utf8_strlen : List ℕ → Length
utf8_strlen str = strlen_loop utf8_cu_count (suc (length str)) str 0

unfoldable pub utf16_strlen : List ℕ → Length
utf16_strlen str = strlen_loop utf16_cu_count (suc (length str)) str 0
