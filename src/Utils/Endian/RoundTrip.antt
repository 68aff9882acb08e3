-- ===== src/Utils/Endian/RoundTrip.antt =====
-- What is stored is loaded back, and what is loaded is stored back, in either byte order.
use whais.Prelude.{
  ℕ, ◌+◌, ◌*◌, ◌/◌, ◌%◌, ◌^◌, ◌≤◌, ◌<◌, ◌≡◌, ◌∙◌, refl, bit_and, List, [], ◌∷◌, ◌++◌, length, take,
  drop, All, arith,
}
use mathlib.Core.List.{reverse}
use native.Mathlib.Nat.{mod-eq_of_lt}
use whais.Prelude.Bits.{bit_or-low, bit_and_0xff}
use whais.Utils.Endian.{
  shift_in, byte_of, load_le_int16, load_le_int32, load_le_int64, store_le_int16, store_le_int32,
  store_le_int64, load_ge_int16, load_ge_int32, load_ge_int64, store_ge_int16, store_ge_int32,
  store_ge_int64,
}

abbrev pub IsByte : ℕ → Type 0
IsByte b = b < 256

pub shift_in-eq : (w r b : ℕ) → r * 256 < 2 ^ w → b < 256 → shift_in w r b ≡ r * 256 + b
unfolding shift_in
shift_in-eq w r b h hb = rw (mod-eq_of_lt h) (bit_or-low 8 r b hb)

pub byte_of-eq : (v k : ℕ) → byte_of v k ≡ v / 2 ^ k % 256
unfolding byte_of
byte_of-eq v k = bit_and_0xff (v / 2 ^ k)

-- The first byte counts least.
le_value : List ℕ → ℕ
le_value [] = 0
le_value (b ∷ bs) = b + 256 * le_value bs

load_le_int32-eq :
    (a b c d : ℕ) (rest : List ℕ)
    → All IsByte (a ∷ b ∷ c ∷ d ∷ [])
    → load_le_int32 (a ∷ b ∷ c ∷ d ∷ rest) ≡ le_value (a ∷ b ∷ c ∷ d ∷ [])
unfolding load_le_int32 le_value
load_le_int32-eq a b c d rest h = ground (
  arith,
  shift_in-eq 32 d c,
  shift_in-eq 32 (shift_in 32 d c) b,
  shift_in-eq 32 (shift_in 32 (shift_in 32 d c) b) a,
)

load_le_int64-eq :
    (a b c d e f g h : ℕ) (rest : List ℕ)
    → All IsByte (a ∷ b ∷ c ∷ d ∷ e ∷ f ∷ g ∷ h ∷ [])
    → load_le_int64 (a ∷ b ∷ c ∷ d ∷ e ∷ f ∷ g ∷ h ∷ rest)
      ≡ le_value (a ∷ b ∷ c ∷ d ∷ e ∷ f ∷ g ∷ h ∷ [])
unfolding load_le_int64 le_value
load_le_int64-eq a b c d e f g h rest all =
    let r6 = shift_in 64 h g in
    let r5 = shift_in 64 r6 f in
    let r4 = shift_in 64 r5 e in
    let r3 = shift_in 64 r4 d in
    let r2 = shift_in 64 r3 c in
    let r1 = shift_in 64 r2 b in
    ground (
      arith,
      shift_in-eq 64 h g,
      shift_in-eq 64 r6 f,
      shift_in-eq 64 r5 e,
      shift_in-eq 64 r4 d,
      shift_in-eq 64 r3 c,
      shift_in-eq 64 r2 b,
      shift_in-eq 64 r1 a,
    )

-- The bytes of a word, the lowest first.
bytes32 : ℕ → List ℕ
bytes32 v = bit_and v 0xff ∷ byte_of v 8 ∷ byte_of v 16 ∷ byte_of v 24 ∷ []

bytes32-IsByte : (v : ℕ) → All IsByte (bytes32 v)
unfolding bytes32
bytes32-IsByte v = omega (arith, bit_and_0xff v, byte_of-eq v 8, byte_of-eq v 16, byte_of-eq v 24)

le_value-bytes32 : (v : ℕ) → v < 2 ^ 32 → le_value (bytes32 v) ≡ v
unfolding bytes32 le_value
le_value-bytes32 v h =
    omega (arith, bit_and_0xff v, byte_of-eq v 8, byte_of-eq v 16, byte_of-eq v 24)

ruleset byte_laws = (arith, byte_of-eq, bit_and_0xff)

bytes64 : ℕ → List ℕ
bytes64 v =
    bit_and v 0xff
    ∷ byte_of v 8
    ∷ byte_of v 16
    ∷ byte_of v 24
    ∷ byte_of v 32
    ∷ byte_of v 40
    ∷ byte_of v 48
    ∷ byte_of v 56
    ∷ []

bytes64-IsByte : (v : ℕ) → All IsByte (bytes64 v)
unfolding bytes64
bytes64-IsByte v = omega byte_laws

le_value-bytes64 : (v : ℕ) → v < 2 ^ 64 → le_value (bytes64 v) ≡ v
unfolding bytes64 le_value
le_value-bytes64 v h = omega byte_laws

-- A 32-bit word stored in little-endian order, in a buffer of four bytes or more, is loaded back.
load-store_le_int32 :
    (v : ℕ) (to : List ℕ) → v < 2 ^ 32 → 4 ≤ length to → load_le_int32 (store_le_int32 v to) ≡ v
unfolding store_le_int32 bytes32
load-store_le_int32 v (_ ∷ _ ∷ _ ∷ _ ∷ rest) h long =
    load_le_int32-eq _ _ _ _ rest (bytes32-IsByte v) ∙ le_value-bytes32 v h
load-store_le_int32 v _ h long = absurd (omega arith)

-- A 64-bit word stored in little-endian order, in a buffer of eight bytes or more, is loaded back.
pub load-store_le_int64 :
    (v : ℕ) (to : List ℕ) → v < 2 ^ 64 → 8 ≤ length to → load_le_int64 (store_le_int64 v to) ≡ v
unfolding store_le_int64 bytes64
load-store_le_int64 v (_ ∷ _ ∷ _ ∷ _ ∷ _ ∷ _ ∷ _ ∷ _ ∷ rest) h long =
    load_le_int64-eq _ _ _ _ _ _ _ _ rest (bytes64-IsByte v) ∙ le_value-bytes64 v h
load-store_le_int64 v _ h long = absurd (omega arith)

-- Storing the 64-bit word that was loaded in little-endian order changes nothing in a buffer of
-- eight bytes or more.
pub store-load_le_int64 :
    (to : List ℕ) → All IsByte to → 8 ≤ length to → store_le_int64 (load_le_int64 to) to ≡ to
unfolding store_le_int64 le_value
store-load_le_int64 (a ∷ b ∷ c ∷ d ∷ e ∷ f ∷ g ∷ h ∷ rest) all long =
    let v = load_le_int64 (a ∷ b ∷ c ∷ d ∷ e ∷ f ∷ g ∷ h ∷ rest) in
    ground (
      arith,
      load_le_int64-eq a b c d e f g h rest (omega arith),
      bit_and_0xff v,
      byte_of-eq v 8,
      byte_of-eq v 16,
      byte_of-eq v 24,
      byte_of-eq v 32,
      byte_of-eq v 40,
      byte_of-eq v 48,
      byte_of-eq v 56,
    )
store-load_le_int64 _ all long = absurd (omega arith)

-- Loading a 64-bit word in big-endian order, from a buffer of eight bytes or more, is loading the
-- first eight bytes in reverse in little-endian order.
pub load_ge_int64-mirror :
    (from : List ℕ) → 8 ≤ length from → load_ge_int64 from ≡ load_le_int64 (reverse (take 8 from))
unfolding load_ge_int64 load_le_int64
load_ge_int64-mirror (a ∷ b ∷ c ∷ d ∷ e ∷ f ∷ g ∷ h ∷ rest) long = refl
load_ge_int64-mirror _ long = absurd (omega arith)

-- Storing in big-endian order is storing in the mirrored buffer.
pub store_ge_int64-mirror :
    (v : ℕ) (to : List ℕ)
    → 8 ≤ length to
    → store_ge_int64 v to ≡ reverse (store_le_int64 v (reverse (take 8 to))) ++ drop 8 to
unfolding store_ge_int64 store_le_int64
store_ge_int64-mirror v (a ∷ b ∷ c ∷ d ∷ e ∷ f ∷ g ∷ h ∷ rest) long = refl
store_ge_int64-mirror v _ long = absurd (omega arith)

-- A 64-bit word stored in big-endian order, in a buffer of eight bytes or more, is loaded back.
load-store_ge_int64 :
    (v : ℕ) (to : List ℕ) → v < 2 ^ 64 → 8 ≤ length to → load_ge_int64 (store_ge_int64 v to) ≡ v
unfolding store_ge_int64 load_ge_int64
load-store_ge_int64 v (a ∷ b ∷ c ∷ d ∷ e ∷ f ∷ g ∷ h ∷ rest) small long =
    unfold store_le_int64 load_le_int64 in
    load-store_le_int64 v (a ∷ b ∷ c ∷ d ∷ e ∷ f ∷ g ∷ h ∷ rest) small long
load-store_ge_int64 v _ small long = absurd (omega arith)

load-store_ge_int32 :
    (v : ℕ) (to : List ℕ) → v < 2 ^ 32 → 4 ≤ length to → load_ge_int32 (store_ge_int32 v to) ≡ v
unfolding store_ge_int32 load_ge_int32 store_le_int32 load_le_int32
load-store_ge_int32 v (a ∷ b ∷ c ∷ d ∷ rest) small long =
    load-store_le_int32 v (a ∷ b ∷ c ∷ d ∷ rest) small long
load-store_ge_int32 v _ small long = absurd (omega arith)

-- The 16-bit operations, in both orders.
load-store_int16 :
    (v : ℕ) (to : List ℕ)
    → v < 2 ^ 16
    → 2 ≤ length to
    → (load_le_int16 (store_le_int16 v to) ≡ v) × (load_ge_int16 (store_ge_int16 v to) ≡ v)
unfolding store_le_int16 load_le_int16 store_ge_int16 load_ge_int16
load-store_int16 v (a ∷ b ∷ rest) small long =
    let back = shift_in-eq 16 (byte_of v 8) (bit_and v 0xff) in
    ground (arith, back, bit_and_0xff v, byte_of-eq v 8)
load-store_int16 v _ small long = absurd (omega arith)
