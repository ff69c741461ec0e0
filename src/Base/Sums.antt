-- ===== src/Base/Sums.antt =====
-- Sums over the indices below a bound.
use Prim.Native.Nat.{ℕ, zero, suc, ◌+◌, ◌*◌, ◌≤◌, ◌<◌}
use mathlib.Core.Path.{◌≡◌, refl}
use native.Mathlib.Omega.{arith}
use mathlib.Core.Logic.{inl, inr}
use safety_aware_route_plann.Base.Tests.{◌==◌, Bool-cases}
use safety_aware_route_plann.Base.Lists.{update}

unfoldable pub sum_below : ℕ → (ℕ → ℕ) → ℕ
sum_below zero f = 0
sum_below (suc n) f = f n + sum_below n f

pub sum_below-le : (n : ℕ) (f : ℕ → ℕ) (b : ℕ) → ((i : ℕ) → f i ≤ b) → sum_below n f ≤ n * b
unfolding sum_below
sum_below-le zero f b h = omega arith
sum_below-le (suc n) f b h = grind (arith, h n, sum_below-le n f b h)

module _ {ℓ} {V : Type ℓ} (w : V → ℕ) (d : ℕ → V) (e : ℕ) (v : V) where
  sum_below-update_out :
      (n : ℕ) → n ≤ e → sum_below n (λ i. w (update d e v i)) ≡ sum_below n (λ i. w (d i))
  unfolding sum_below
  sum_below-update_out zero h = refl
  sum_below-update_out (suc n) h = ground (arith, sum_below-update_out n)

  -- A write moves the sum by the difference at its index.
  pub sum_below-update :
      (n : ℕ)
      → e < n
      → sum_below n (λ i. w (update d e v i)) + w (d e) ≡ sum_below n (λ i. w (d i)) + w v
  unfolding sum_below
  sum_below-update zero h = elim h [ ]
  sum_below-update (suc n) h = elim (Bool-cases (e == n)) [
    | inl s ↦ ground (arith, sum_below-update_out n)
    | inr s ↦ ground (arith, sum_below-update n)
  ]
