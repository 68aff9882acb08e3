-- ===== src/Prelude/Bits.antt =====
-- Masks and bit-wise or on machine words as arithmetic: a word cut at bit `k` keeps its two parts
-- apart. The proofs follow the bits of `k` down the recursion that the native operations stand for.
use Prim.Native.Nat.{ℕ, zero, suc, ◌+◌, ◌-◌, ◌*◌, ◌/◌, ◌%◌, ◌≤◌, ◌<◌, ◌^◌, min, max}
use Prim.Native.Nat.{bit_and, bit_or, digits, bit_and-bitwise, bit_or-bitwise}
use mathlib.Core.Path.{◌≡◌, ◌∙◌, refl, ap}
use mathlib.Core.Bool.{Bool, true, ◌&&◌}
use native.Mathlib.Omega.{arith}
use native.Mathlib.Nat.{pow-suc}
use whais.Prelude.Tests.{◌==◌, ==_iff}

-- A table that shows two functions equal at every number below `n`.
unfoldable pub agrees : (ℕ → ℕ) → (ℕ → ℕ) → ℕ → Bool
agrees f g zero = true
agrees f g (suc n) = agrees f g n && f n == g n

pub agrees-eq : (f g : ℕ → ℕ) (n x : ℕ) → agrees f g n ≡ true → x < n → f x ≡ g x
unfolding agrees
agrees-eq f g (suc n) x table below = ground (arith, agrees-eq f g n x, ==_iff (f n) (g n))
agrees-eq f g zero x table below = elim below [ ]

abbrev or_bits : ℕ → ℕ → ℕ → ℕ
or_bits = digits (λ b. b) max

abbrev and_bits : ℕ → ℕ → ℕ → ℕ
and_bits = digits (λ b. zero) min

twice_pow : (q k : ℕ) → q * 2 ^ suc k ≡ 2 * (q * 2 ^ k)
twice_pow q k = omega (arith, ap (λ (t : ℕ). q * t) (pow-suc 2 k))

-- Once the first number has run out, the second one is what is left.
or_bits-rest : (fuel b : ℕ) → or_bits fuel 0 b ≡ b
or_bits-rest zero b = refl
or_bits-rest (suc fuel) b = refl

or_bits-parts : (k fuel a q r : ℕ) → a ≡ q * 2 ^ k → a ≤ fuel → r < 2 ^ k → or_bits fuel a r ≡ a + r
or_bits-parts k fuel zero q r e enough small = omega (arith, or_bits-rest fuel r)
or_bits-parts k zero (suc a) q r e enough small = absurd (omega arith)
or_bits-parts zero (suc fuel) (suc a) q r e enough small = omega (
  arith,
  or_bits-parts zero fuel (suc a / 2) (suc a / 2) (r / 2) (omega arith) (omega arith) (omega arith),
)
or_bits-parts (suc k) (suc fuel) (suc a) q r e enough small =
    let even = twice_pow q k in
    let wide = twice_pow 1 k in
    omega (
      arith,
      even,
      or_bits-parts k fuel (suc a / 2) q (r / 2) (omega arith) (omega arith) (omega arith),
    )

-- `x | lo` where the low `k` bits of `x` are clear.
pub bit_or-low : (k q r : ℕ) → r < 2 ^ k → bit_or (q * 2 ^ k) r ≡ q * 2 ^ k + r
bit_or-low k q r small =
    bit_or-bitwise (q * 2 ^ k) r
    ∙ or_bits-parts k (q * 2 ^ k) (q * 2 ^ k) q r refl (omega arith) small

and_bits-ones :
    (k fuel a q r : ℕ) → a ≡ q * 2 ^ k + r → a ≤ fuel → r < 2 ^ k → and_bits fuel a (2 ^ k - 1) ≡ r
and_bits-ones k zero zero q r e enough small = omega arith
and_bits-ones k (suc fuel) zero q r e enough small = omega arith
and_bits-ones k zero (suc a) q r e enough small = absurd (omega arith)
and_bits-ones zero (suc fuel) (suc a) q r e enough small = omega (
  arith,
  and_bits-ones zero fuel (suc a / 2) (suc a / 2) 0 (omega arith) (omega arith) (omega arith),
)
and_bits-ones (suc k) (suc fuel) (suc a) q r e enough small =
    let even = twice_pow q k in
    let wide = twice_pow 1 k in
    let ones : (2 ^ suc k - 1) / 2 ≡ 2 ^ k - 1 = omega arith in
    omega (
      arith,
      ap (λ (mask : ℕ). and_bits fuel (suc a / 2) mask) ones,
      and_bits-ones k fuel (suc a / 2) q (r / 2) (omega arith) (omega arith) (omega arith),
    )

-- `x & (2 ^ k - 1)` keeps the low `k` bits.
bit_and-mask : (k x q r : ℕ) → x ≡ q * 2 ^ k + r → r < 2 ^ k → bit_and x (2 ^ k - 1) ≡ r
bit_and-mask k x q r e small =
    bit_and-bitwise x (2 ^ k - 1) ∙ and_bits-ones k x x q r e (omega arith) small

pub bit_and_0x3f : (x : ℕ) → bit_and x 0x3f ≡ x % 64
bit_and_0x3f x = bit_and-mask 6 x (x / 64) (x % 64) (omega arith) (omega arith)

pub bit_and_0xff : (x : ℕ) → bit_and x 0xff ≡ x % 256
bit_and_0xff x = bit_and-mask 8 x (x / 256) (x % 256) (omega arith) (omega arith)

pub bit_and_0x3ff : (x : ℕ) → bit_and x 0x3ff ≡ x % 1024
bit_and_0x3ff x = bit_and-mask 10 x (x / 1024) (x % 1024) (omega arith) (omega arith)
