-- ===== src/Utils/Utf/Utf8.antt =====
-- UTF-8: what one code point is stored as, and how it is read back.
use whais.Prelude.{
  ℕ, suc, ◌+◌, ◌/◌, ◌%◌, ◌≤◌, ◌<◌, ◌≡◌, ◌≢◌, ◌∙◌, ap, List, [], ◌∷◌, ◌++◌, length, take, refl,
  arith, ltb, if◌then◌else◌, All,
}
use whais.Prelude.Bits.{bit_and_0xff}
use whais.Utils.Utf.{utf8_cu_count, utf8_store_size, store_utf8_cp, load_utf8_cp}
use whais.Utils.Utf.Bytes.{
  mark_two, mark_three, mark_four, trail_unit-eq, lead_one, lead_two, lead_three, lead_four,
  trail-eq,
}

-- The code units of a code point below 0x200000.
unfoldable pub units_of : ℕ → List ℕ
units_of cp =
    if ltb cp 0x80
    then cp ∷ []
    else if ltb cp 0x800
    then (0xc0 + cp / 64) ∷ (0x80 + cp % 64) ∷ []
    else if ltb cp 0x10000
    then (0xe0 + cp / 4096) ∷ (0x80 + cp / 64 % 64) ∷ (0x80 + cp % 64) ∷ []
    else (0xf0 + cp / 262144)
      ∷ (0x80 + cp / 4096 % 64)
      ∷ (0x80 + cp / 64 % 64)
      ∷ (0x80 + cp % 64)
      ∷ []

-- `store_utf8_cp` fills the first units of the buffer with those of the code point.
store_utf8_cp-units :
    (cp a b c d : ℕ) (rest : List ℕ)
    → cp < 0x200000
    → store_utf8_cp cp (a ∷ b ∷ c ∷ d ∷ rest) ≡ (
      length (units_of cp),
      units_of cp
          ++ (if ltb cp 0x80
              then b ∷ c ∷ d ∷ rest
              else if ltb cp 0x800
              then c ∷ d ∷ rest
              else if ltb cp 0x10000
              then d ∷ rest
              else rest),
    )
unfolding store_utf8_cp units_of
store_utf8_cp-units cp a b c d rest h = ground (
  arith,
  bit_and_0xff cp,
  mark_two (cp / 64),
  mark_three (cp / 4096),
  mark_four (cp / 262144),
  trail_unit-eq cp,
  trail_unit-eq (cp / 64),
  trail_unit-eq (cp / 4096),
)

-- What `store_utf8_cp` writes for a code point.
unfoldable pub stored : ℕ → List ℕ
stored cp = let (n, dest) = store_utf8_cp cp (0 ∷ 0 ∷ 0 ∷ 0 ∷ []) in take n dest

take-append {ℓ} : {A : Type ℓ} (xs ys : List A) → take (length xs) (xs ++ ys) ≡ xs
take-append [] ys = refl
take-append (x ∷ xs) ys = ap (λ t. x ∷ t) (take-append xs ys)

pub stored-units : (cp : ℕ) → cp < 0x200000 → stored cp ≡ units_of cp
unfolding stored
stored-units cp h = rw (store_utf8_cp-units cp 0 0 0 0 [] h) (take-append (units_of cp) _)

load_units_of :
    (cp : ℕ) (rest : List ℕ)
    → cp < 0x200000
    → load_utf8_cp (units_of cp ++ rest) ≡ (length (units_of cp), cp)
unfolding units_of load_utf8_cp utf8_cu_count
load_units_of cp rest h = ground (
  arith,
  lead_one cp,
  lead_two (cp / 64),
  trail-eq (cp / 64) (cp % 64),
  lead_three (cp / 4096),
  trail-eq (cp / 4096) (cp / 64 % 64),
  trail-eq (cp / 64) (cp % 64),
  lead_four (cp / 262144),
  trail-eq (cp / 262144) (cp / 4096 % 64),
)

-- A code point below 0x200000 that is stored in a buffer of four units or more takes as many units
-- as `utf8_store_size` says, and loading from the buffer gives that count and the code point.
pub load-store_utf8_cp :
    (cp : ℕ) (dest : List ℕ)
    → cp < 0x200000
    → 4 ≤ length dest
    → ((store_utf8_cp cp dest).0 ≡ utf8_store_size cp)
      × (load_utf8_cp (store_utf8_cp cp dest).1 ≡ (utf8_store_size cp, cp))
load-store_utf8_cp cp (a ∷ b ∷ c ∷ d ∷ rest) h long =
    let size : length (units_of cp) ≡ utf8_store_size cp =
      unfold units_of utf8_store_size in ground arith in
    rw (store_utf8_cp-units cp a b c d rest h) (size, load_units_of cp _ h ∙ ap (λ n. (n, cp)) size)
load-store_utf8_cp cp _ h long = absurd (omega arith)

abbrev Follows : ℕ → Type 0
Follows u = utf8_cu_count u ≡ 0

abbrev pub IsEncoding : List ℕ → Type 0
IsEncoding [] = ⊥
IsEncoding (u ∷ us) = (utf8_cu_count u ≡ suc (length us)) × (u ≢ 0) × All Follows us

-- The first unit tells how many units the code point takes, and no other unit can be taken for a
-- first one.
pub units_of-IsEncoding : (cp : ℕ) → 0 < cp → cp < 0x200000 → IsEncoding (units_of cp)
unfolding units_of utf8_cu_count
units_of-IsEncoding cp pos h = ground arith

-- What a code point above is stored as, and the error of every other one.
store_utf8_cp-error :
    (cp : ℕ) (dest : List ℕ)
    → 0x200000 ≤ cp
    → (store_utf8_cp cp dest ≡ (0, dest)) × (utf8_store_size cp ≡ 0)
unfolding store_utf8_cp utf8_store_size
store_utf8_cp-error cp dest h = ground arith
