-- ===== src/Utils/Sort/Numbers.antt =====
-- The numbers under their own `<`, as the sort compares the fields of an integer type.
use whais.Prelude.{ℕ, ◌≡◌, true, false, arith, ltb}
use whais.Utils.Sort.{Less}

pub ltb_asymm : (a b : ℕ) → ltb a b ≡ true → ltb b a ≡ false
ltb_asymm a b h = ground arith

pub not_ltb_trans : (a b c : ℕ) → ltb a b ≡ false → ltb b c ≡ false → ltb a c ≡ false
not_ltb_trans a b c h k = ground arith

abbrev pub numbers : Less ℕ
numbers = record { less = ltb; asymm = ltb_asymm; not_less_trans = not_ltb_trans }
