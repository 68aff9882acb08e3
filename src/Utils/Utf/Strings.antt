-- ===== src/Utils/Utf/Strings.antt =====
-- The length of a zero-terminated string is the number of its code points.
use whais.Prelude.{
  ℕ, zero, suc, ◌+◌, ◌%◌, ◌^◌, ◌≤◌, ◌<◌, ◌≡◌, ◌≢◌, ◌∙◌, refl, ap, List, [], ◌∷◌, ◌++◌, length,
  length-append, length-drop, drop, arith, All,
}
use mathlib.Core.List.{append_assoc}
use whais.Utils.Utf.{utf8_cu_count, utf8_strlen, strlen_loop, counted, overrun, stuck}
use whais.Utils.Utf.Utf8.{units_of, units_of-IsEncoding, IsEncoding, stored, stored-units}

-- A text as `store_utf8_cp` writes it, one code point after the other.
unfoldable pub encode : List ℕ → List ℕ
encode [] = []
encode (cp ∷ cps) = stored cp ++ encode cps

abbrev pub IsCodePoint : ℕ → Type 0
IsCodePoint cp = (0 < cp) × (cp < 0x200000)

drop-append {ℓ} : {A : Type ℓ} (xs ys : List A) → drop (length xs) (xs ++ ys) ≡ ys
drop-append [] ys = refl
drop-append (x ∷ xs) ys = drop-append xs ys

-- One code point is one round of the loop.
strlen_loop_round :
    (fuel : ℕ) (us rest : List ℕ) (result : ℕ)
    → IsEncoding us
    → strlen_loop utf8_cu_count (suc fuel) (us ++ rest) result
      ≡ strlen_loop utf8_cu_count fuel rest ((result + 1) % 2 ^ 32)
unfolding strlen_loop
strlen_loop_round fuel [] rest result h = elim h [ ]
strlen_loop_round fuel (u ∷ us) rest result (count, ne, tail) = ground (arith, drop-append us rest)

strlen_loop-encode :
    (fuel : ℕ) (cps more : List ℕ) (result : ℕ)
    → All IsCodePoint cps
    → length cps < fuel
    → result + length cps < 2 ^ 32
    → strlen_loop utf8_cu_count fuel (encode cps ++ 0 ∷ more) result ≡ counted (result + length cps)
unfolding encode strlen_loop
strlen_loop-encode zero cps more result h f w = elim f [ ]
strlen_loop-encode (suc fuel) [] more result h f w = ap counted (omega arith)
strlen_loop-encode (suc fuel) (cp ∷ cps) more result (h, hs) f w = rw append_assoc (
    rw (stored-units cp h.1) (
      strlen_loop_round fuel (units_of cp) (encode cps ++ 0 ∷ more) result
        (units_of-IsEncoding cp h.0 h.1)
      ∙ strlen_loop-encode fuel cps more ((result + 1) % 2 ^ 32) hs (omega arith) (omega arith)
      ∙ ap counted (omega arith)))

length-encode : (cps : List ℕ) → All IsCodePoint cps → length cps ≤ length (encode cps)
unfolding encode units_of
length-encode [] h = omega arith
length-encode (cp ∷ cps) (h, hs) =
    rw (stored-units cp h.1)
      (ground (arith, length-append (units_of cp) (encode cps), length-encode cps hs))

-- The length of a zero-terminated UTF-8 string is the number of the code points that it encodes,
-- each above 0 and below 0x200000 and fewer than 2 ^ 31 together, which an `int` holds, whatever
-- stands behind the terminator.
pub utf8_strlen-encode :
    (cps more : List ℕ)
    → All IsCodePoint cps
    → length cps < 2 ^ 31
    → utf8_strlen (encode cps ++ 0 ∷ more) ≡ counted (length cps)
unfolding utf8_strlen
utf8_strlen-encode cps more h w =
    strlen_loop-encode _ cps more 0 h
      (omega (arith, length-append (encode cps) (0 ∷ more), length-encode cps h)) (omega arith)
    ∙ ap counted (omega arith)

-- The loop ends on every array: each round drops a unit at least.
strlen_loop-ne-stuck :
    (cu_count : ℕ → ℕ) (fuel : ℕ) (str : List ℕ) (result : ℕ)
    → length str < fuel
    → strlen_loop cu_count fuel str result ≢ stuck
unfolding strlen_loop
strlen_loop-ne-stuck cu_count zero str result h = elim h [ ]
strlen_loop-ne-stuck cu_count (suc fuel) [] result h = λ e. cc
strlen_loop-ne-stuck cu_count (suc fuel) (u ∷ str) result h = ground (
  arith,
  length-drop (cu_count u) (u ∷ str),
  strlen_loop-ne-stuck cu_count fuel (drop (cu_count u) (u ∷ str)) ((result + 1) % 2 ^ 32),
)

utf8_strlen-ne-stuck : (str : List ℕ) → utf8_strlen str ≢ stuck
unfolding utf8_strlen
utf8_strlen-ne-stuck str = strlen_loop-ne-stuck utf8_cu_count _ str 0 (omega arith)

-- A text whose last character is cut before its end makes the loop step over the terminator.
strlen_loop-overrun :
    (fuel : ℕ) (cps : List ℕ) (u result : ℕ)
    → All IsCodePoint cps
    → 0xc0 ≤ u
    → u < 0xf8
    → suc (length cps) < fuel
    → strlen_loop utf8_cu_count fuel (encode cps ++ u ∷ 0 ∷ []) result ≡ overrun
unfolding encode strlen_loop
strlen_loop-overrun zero cps u result h lo hi f = elim f [ ]
strlen_loop-overrun (suc zero) cps u result h lo hi f = absurd (omega arith)
strlen_loop-overrun (suc (suc fuel)) [] u result h lo hi f = unfold utf8_cu_count in ground arith
strlen_loop-overrun (suc (suc fuel)) (cp ∷ cps) u result (h, hs) lo hi f = rw append_assoc (
    rw (stored-units cp h.1) (
      strlen_loop_round (suc fuel) (units_of cp) (encode cps ++ u ∷ 0 ∷ []) result
        (units_of-IsEncoding cp h.0 h.1)
      ∙ strlen_loop-overrun (suc fuel) cps u ((result + 1) % 2 ^ 32) hs lo hi (omega arith)))

-- On a text that ends with the first unit of a longer character and then the terminator,
-- the length runs over the terminator and reads behind the array.
pub utf8_strlen-overrun :
    (cps : List ℕ) (u : ℕ)
    → All IsCodePoint cps
    → 0xc0 ≤ u
    → u < 0xf8
    → utf8_strlen (encode cps ++ u ∷ 0 ∷ []) ≡ overrun
unfolding utf8_strlen
utf8_strlen-overrun cps u h lo hi =
    strlen_loop-overrun _ cps u 0 h lo hi
      (omega (arith, length-append (encode cps) (u ∷ 0 ∷ []), length-encode cps h))
