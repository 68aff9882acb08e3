-- ===== src/Prelude/Place.antt =====
-- A position `i` in blocks of `m` items: its block `i / m` and its place `i % m` there.
use Prim.Native.Nat.{ℕ, zero, suc, ◌-◌, ◌+◌, ◌*◌, ◌/◌, ◌%◌, ◌≤◌, ◌<◌}
use mathlib.Core.Path.{◌≡◌}
use mathlib.Core.Logic.{◌⊎◌, inl, inr}
use native.Mathlib.Omega.{arith}
use native.Mathlib.Nat.{div-add-mod', mod-lt}
use native.Mathlib.Decide.{dec_lt, ℕ_discrete}

-- A whole block fits between two block numbers.
pub block_le : (m a b : ℕ) → a < b → a * m + m ≤ b * m
block_le m a b h = grind arith

pub block_sum : (m n : ℕ) → 0 < n → (n - 1) * m + m ≡ n * m
block_sum m zero h = elim h [ ]
block_sum m (suc n) h = let e : suc n - 1 ≡ n = omega arith in rw e (omega arith)

module _ (m i : ℕ) (pos : 0 < m) where
  pub place_above : (n r : ℕ) → n * m + r ≤ i → (n < i / m) ⊎ ((i / m ≡ n) × (r ≤ i % m))
  place_above n r h = elim (dec_lt n (i / m)) [
    | yes p ↦ inl p
    | no p ↦ elim (ℕ_discrete (i / m) n) [
      | yes e ↦ inr (e, omega (arith, div-add-mod' i m, rw e at (div-add-mod' i m)))
      | no e ↦ absurd (omega (arith, div-add-mod' i m, mod-lt i pos, block_le m (i / m) n))
    ]
  ]

  pub place_below : (n r : ℕ) → r ≤ m → i < n * m + r → (i / m < n) ⊎ ((i / m ≡ n) × (i % m < r))
  place_below n r small h = elim (dec_lt (i / m) n) [
    | yes p ↦ inl p
    | no p ↦ elim (ℕ_discrete (i / m) n) [
      | yes e ↦ inr (e, omega (arith, div-add-mod' i m, rw e at (div-add-mod' i m)))
      | no e ↦
          absurd (omega (arith, div-add-mod' i m, mod-lt i pos, block_le m n (i / m) (omega arith)))
    ]
  ]

  -- The `len` items from place `p` of block `k` on, where these fit into the block.
  pub place_inside :
      (k p len : ℕ)
      → p + len ≤ m
      → k * m + p ≤ i
      → i < k * m + p + len
      → (i / m ≡ k) × (p ≤ i % m) × (i % m < p + len)
  place_inside k p len fits lo hi =
      grind (arith, place_above k p lo, place_below k (p + len) fits (omega arith))

  pub place_eq : (k : ℕ) → i / m ≡ k → i ≡ k * m + i % m
  place_eq k e = omega (arith, rw e at (div-add-mod' i m))
