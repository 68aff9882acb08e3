-- ===== src/Utils/Tests.antt =====
-- The byte orders and the encodings at concrete inputs.
use whais.Prelude.{ℕ, ◌≡◌, List, [], ◌∷◌, ◌++◌, take, arith}
use mathlib.Core.List.{reverse}
use whais.Utils.Endian.{load_le_int64, load_ge_int64, store_le_int64}
use whais.Utils.Endian.RoundTrip.{load-store_le_int64, store-load_le_int64, load_ge_int64-mirror}
use whais.Utils.Utf.{
  load_utf8_cp, store_utf8_cp, utf8_store_size, load_utf16_cp, store_utf16_cp, utf16_store_size,
  utf16_cu_count, unit, utf8_strlen, counted, overrun,
}
use whais.Utils.Utf.Utf8.{load-store_utf8_cp}
use whais.Utils.Utf.Utf16.{load-store_utf16_cp}
use whais.Utils.Utf.Strings.{encode, utf8_strlen-encode, utf8_strlen-overrun}

abbrev bytes : List ℕ
bytes = 1 ∷ 2 ∷ 3 ∷ 4 ∷ 5 ∷ 6 ∷ 7 ∷ 8 ∷ 9 ∷ []

load-store_le_int64_example :
    load_le_int64 (store_le_int64 0x1122_3344_5566 bytes) ≡ 0x1122_3344_5566
load-store_le_int64_example = load-store_le_int64 0x1122_3344_5566 bytes (omega arith) (omega arith)

store-load_le_int64_example : store_le_int64 (load_le_int64 bytes) bytes ≡ bytes
store-load_le_int64_example = store-load_le_int64 bytes (omega arith) (omega arith)

load_ge_int64-mirror_example : load_ge_int64 bytes ≡ load_le_int64 (reverse (take 8 bytes))
load_ge_int64-mirror_example = load_ge_int64-mirror bytes (omega arith)

load-store_utf8_cp_example :
    ((store_utf8_cp 0x20ac bytes).0 ≡ utf8_store_size 0x20ac)
    × (load_utf8_cp (store_utf8_cp 0x20ac bytes).1 ≡ (utf8_store_size 0x20ac, 0x20ac))
load-store_utf8_cp_example = load-store_utf8_cp 0x20ac bytes (omega arith) (omega arith)

load-store_utf16_cp_example :
    ((store_utf16_cp 0x1f600 bytes).0 ≡ utf16_store_size 0x1f600)
    × (load_utf16_cp (store_utf16_cp 0x1f600 bytes).1 ≡ (utf16_store_size 0x1f600, 0x1f600))
    × (utf16_cu_count (unit (store_utf16_cp 0x1f600 bytes).1 0) ≡ utf16_store_size 0x1f600)
load-store_utf16_cp_example = load-store_utf16_cp 0x1f600 bytes (omega arith) (omega arith)

abbrev text : List ℕ
text = 0x41 ∷ 0xe9 ∷ 0x20ac ∷ 0x1f600 ∷ []

utf8_strlen-encode_example : utf8_strlen (encode text ++ 0 ∷ bytes) ≡ counted 4
utf8_strlen-encode_example = utf8_strlen-encode text bytes (omega arith) (omega arith)

utf8_strlen-overrun_example : utf8_strlen (encode text ++ 0xc3 ∷ 0 ∷ []) ≡ overrun
utf8_strlen-overrun_example =
    utf8_strlen-overrun text 0xc3 (omega arith) (omega arith) (omega arith)
