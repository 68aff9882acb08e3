-- ===== src/Utils/Utf/Utf16.antt =====
-- UTF-16: surrogate pairs, and the code points that have no encoding.
use whais.Prelude.{ℕ, ◌-◌, ◌/◌, ◌^◌, ◌≤◌, ◌<◌, ◌≡◌, ◌⊎◌, List, ◌∷◌, length, arith}
use whais.Prelude.Bits.{bit_and_0x3ff}
use whais.Utils.Utf.{utf16_cu_count, utf16_store_size, store_utf16_cp, load_utf16_cp, unit}

-- A Unicode scalar value: no surrogate, and at most the last code point.
abbrev pub IsScalar : ℕ → Type 0
IsScalar cp = (cp < 0xd800) ⊎ ((0xdfff < cp) × (cp ≤ 0x10ffff))

-- A scalar value stored in a buffer of two units or more takes as many units as
-- `utf16_store_size` says; its first unit tells that count, and loading gives the value back.
pub load-store_utf16_cp :
    (cp : ℕ) (dest : List ℕ)
    → IsScalar cp
    → 2 ≤ length dest
    → ((store_utf16_cp cp dest).0 ≡ utf16_store_size cp)
      × (load_utf16_cp (store_utf16_cp cp dest).1 ≡ (utf16_store_size cp, cp))
      × (utf16_cu_count (unit (store_utf16_cp cp dest).1 0) ≡ utf16_store_size cp)
unfolding store_utf16_cp load_utf16_cp utf16_store_size utf16_cu_count
load-store_utf16_cp cp (a ∷ b ∷ rest) ok long =
    ground (arith, bit_and_0x3ff ((cp - 0x10000) / 2 ^ 10), bit_and_0x3ff (cp - 0x10000))
load-store_utf16_cp cp _ ok long = absurd (omega arith)

-- Surrogates and what lies above the last code point are not stored: the buffer stays as it was.
pub store_utf16_cp-refused :
    (cp : ℕ) (dest : List ℕ)
    → ((0xd800 ≤ cp) × (cp ≤ 0xdfff)) ⊎ (0x10ffff < cp)
    → store_utf16_cp cp dest ≡ (0, dest)
unfolding store_utf16_cp utf16_store_size
store_utf16_cp-refused cp dest h = ground arith
