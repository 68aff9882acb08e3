-- ===== src/Utils/Utf/Bytes.antt =====
-- The code units of UTF-8 as sums: a marker and some bits of the code point.
use whais.Prelude.{ℕ, ◌+◌, ◌-◌, ◌*◌, ◌%◌, ◌^◌, ◌<◌, ◌≡◌, refl, bit_and, bit_or, arith}
use whais.Prelude.Bits.{agrees, agrees-eq, bit_and_0x3f, bit_or-low}
use whais.Utils.Utf.{flip, lead, trail, lead_unit, trail_unit}
use native.Mathlib.Nat.{mod-eq_of_lt}

pub mark_two : (x : ℕ) → x < 32 → lead_unit x 0xc0 ≡ 0xc0 + x
unfolding lead_unit agrees
mark_two x h = agrees-eq (λ x. lead_unit x 0xc0) (λ x. 0xc0 + x) 32 x refl h

pub mark_three : (x : ℕ) → x < 16 → lead_unit x 0xe0 ≡ 0xe0 + x
unfolding lead_unit agrees
mark_three x h = agrees-eq (λ x. lead_unit x 0xe0) (λ x. 0xe0 + x) 16 x refl h

pub mark_four : (x : ℕ) → x < 8 → lead_unit x 0xf0 ≡ 0xf0 + x
unfolding lead_unit agrees
mark_four x h = agrees-eq (λ x. lead_unit x 0xf0) (λ x. 0xf0 + x) 8 x refl h

mark_trail : (x : ℕ) → x < 64 → bit_or x 0x80 % 256 ≡ 0x80 + x
unfolding agrees
mark_trail x h = agrees-eq (λ x. bit_or x 0x80 % 256) (λ x. 0x80 + x) 64 x refl h

pub trail_unit-eq : (x : ℕ) → trail_unit x ≡ 0x80 + x % 64
unfolding trail_unit
trail_unit-eq x = rw (bit_and_0x3f x) (mark_trail (x % 64) (omega arith))

pub lead_one : (x : ℕ) → x < 128 → lead x 0 ≡ x
unfolding lead agrees
lead_one x h = agrees-eq (λ x. lead x 0) (λ x. x) 128 x refl h

pub lead_two : (x : ℕ) → x < 32 → lead (0xc0 + x) 0xc0 ≡ x
unfolding lead agrees
lead_two x h = agrees-eq (λ x. lead (0xc0 + x) 0xc0) (λ x. x) 32 x refl h

pub lead_three : (x : ℕ) → x < 16 → lead (0xe0 + x) 0xe0 ≡ x
unfolding lead agrees
lead_three x h = agrees-eq (λ x. lead (0xe0 + x) 0xe0) (λ x. x) 16 x refl h

pub lead_four : (x : ℕ) → x < 8 → lead (0xf0 + x) 0xf0 ≡ x
unfolding lead agrees
lead_four x h = agrees-eq (λ x. lead (0xf0 + x) 0xf0) (λ x. x) 8 x refl h

unmark_trail : (x : ℕ) → x < 64 → bit_and (0x80 + x) (flip 0x80) ≡ x
unfolding agrees
unmark_trail x h = agrees-eq (λ x. bit_and (0x80 + x) (flip 0x80)) (λ x. x) 64 x refl h

pub trail-eq : (cp x : ℕ) → cp < 2 ^ 26 → x < 64 → trail cp (0x80 + x) ≡ cp * 64 + x
unfolding trail
trail-eq cp x h hx =
    let small : cp * 2 ^ 6 < 2 ^ 32 = omega arith in
    rw (mod-eq_of_lt small, unmark_trail x hx) (bit_or-low 6 cp x hx)

pub ruleset marks = (arith, mark_two, mark_three, mark_four, trail_unit-eq)
