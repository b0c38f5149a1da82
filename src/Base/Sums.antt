-- ===== src/Base/Sums.antt =====
-- Sums over lists and over positions.
use Prim.Native.Nat.{ℕ, zero, suc, ◌+◌}
use mathlib.Core.Path.{◌≡◌, refl, ap, ◌∙◌}
use native.Mathlib.Omega.{arith}
use shared_gapbs.Base.Lists.{sum_list}
use shared_gapbs.Base.Blocks.{Array, slice}
use shared_gapbs.Base.Loop.{sum_below, sum_below-ext}

pub sum_below-first : (f : ℕ → ℕ) (n : ℕ) → sum_below f (suc n) ≡ f 0 + sum_below (λ i. f (suc i)) n
sum_below-first f zero = omega arith
sum_below-first f (suc n) = omega (arith, sum_below-first f n)

-- The sum over a slice, position by position.
pub sum_list-slice {ℓ} :
    {A : Type ℓ} (f : A → ℕ) (a : Array A) (p n : ℕ)
    → sum_list f (slice a p n) ≡ sum_below (λ i. f (a (p + i))) n
sum_list-slice f a p zero = refl
sum_list-slice f a p (suc n) =
    let here : f (a (p + 0)) ≡ f (a p) = ap (λ j. f (a j)) (omega arith) in
    let later =
      sum_below-ext (λ i. f (a (suc p + i))) (λ i. f (a (p + suc i))) n
        (λ i lt. ap (λ j. f (a j)) (omega arith)) in
    omega (arith, sum_list-slice f a (suc p) n, sum_below-first (λ i. f (a (p + i))) n, here, later)

pub sum_list-slice_zero {ℓ} :
    {A : Type ℓ} (f : A → ℕ) (a : Array A) (n : ℕ)
    → sum_list f (slice a 0 n) ≡ sum_below (λ i. f (a i)) n
sum_list-slice_zero f a n =
    sum_list-slice f a 0 n
    ∙ sum_below-ext (λ i. f (a (0 + i))) (λ i. f (a i)) n (λ i lt. ap (λ j. f (a j)) (omega arith))
