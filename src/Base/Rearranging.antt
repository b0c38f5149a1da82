-- ===== src/Base/Rearranging.antt =====
-- Rearrangements of the first numbers, as what keeps every sum.
use Prim.Native.Nat.{ℕ, zero, suc, ◌+◌, ◌≤◌, ◌<◌}
use mathlib.Core.Path.{◌≡◌, ap, ◌∙◌}
use mathlib.Core.Logic.{inl, inr}
use native.Mathlib.Omega.{arith}
use shared_gapbs.Base.Tests.{ltb, ◌==◌, if◌then◌else◌, Bool-cases, lt_suc_cases}
use shared_gapbs.Base.Loop.{sum_below, sum_below-ext, sum_below-zero}

pub sum_below-none : (f : ℕ → ℕ) (n k : ℕ) → sum_below f n ≡ 0 → k < n → f k ≡ 0
sum_below-none f zero k e h = absurd (omega arith)
sum_below-none f (suc n) k e h = elim (lt_suc_cases k n h) [
  | inl lt ↦ sum_below-none f n k (omega (arith, e)) lt
  | inr at ↦ ap f at ∙ omega (arith, e)
]

sum_below-some : (f : ℕ → ℕ) (n : ℕ) → 0 < sum_below f n → (k : ℕ) × (k < n) × (0 < f k)
sum_below-some f zero h = absurd (omega arith)
sum_below-some f (suc n) h = elim (Bool-cases (ltb 0 (f n))) [
  | inl here ↦ (n, omega arith, ground arith)
  | inr before ↦
      let gone : f n ≡ 0 = ground arith in
      let (k, lt, some) = sum_below-some f n (omega (arith, h, gone)) in (k, omega arith, some)
]

sum_below-cell : (f : ℕ → ℕ) (n k : ℕ) → k < n → f k ≤ sum_below f n
sum_below-cell f zero k h = absurd (omega arith)
sum_below-cell f (suc n) k h = elim (lt_suc_cases k n h) [
  | inl lt ↦ omega (arith, sum_below-cell f n k lt)
  | inr at ↦ omega (arith, ap f at)
]

sum_below-cells : (f : ℕ → ℕ) (n k l : ℕ) → k < l → l < n → f k + f l ≤ sum_below f n
sum_below-cells f zero k l lt h = absurd (omega arith)
sum_below-cells f (suc n) k l lt h = elim (lt_suc_cases l n h) [
  | inl below ↦ omega (arith, sum_below-cells f n k l lt below)
  | inr at ↦ omega (arith, ap f at, sum_below-cell f n k (omega arith))
]

sum_below-one : (n u : ℕ) → sum_below (λ v. if v == u then 1 else 0) n ≡ (if ltb u n then 1 else 0)
sum_below-one zero u = ground arith
sum_below-one (suc n) u = ground (arith, sum_below-one n u)

-- A rearrangement of the numbers below `n`: it keeps every sum.
abbrev pub Rearranges : ℕ → (ℕ → ℕ) → Type 0
Rearranges n σ = (h : ℕ → ℕ) → sum_below (λ k. h (σ k)) n ≡ sum_below h n

module _ (n : ℕ) (σ : ℕ → ℕ) (keeps : Rearranges n σ) where
  pub Rearranges-below : (k : ℕ) → k < n → σ k < n
  Rearranges-below k h =
      let none =
        keeps (λ v. if ltb v n then 0 else 1)
        ∙ sum_below-ext (λ v. if ltb v n then 0 else 1) (λ v. 0) n (λ v lt. ground arith)
        ∙ sum_below-zero n in
      let cell = sum_below-none (λ k. if ltb (σ k) n then 0 else 1) n k none h in
      ground (arith, cell)

  pub Rearranges-onto : (u : ℕ) → u < n → (k : ℕ) × (k < n) × (σ k ≡ u)
  Rearranges-onto u h =
      let one = keeps (λ v. if v == u then 1 else 0) ∙ sum_below-one n u in
      let (k, lt, found) =
        sum_below-some (λ k. if σ k == u then 1 else 0) n (ground (arith, one)) in
      (k, lt, ground (arith, found))

  pub Rearranges-apart : (k l : ℕ) → k < l → l < n → σ k ≡ σ l → ⊥
  Rearranges-apart k l lt h e =
      let one = keeps (λ v. if v == σ l then 1 else 0) ∙ sum_below-one n (σ l) in
      let two = sum_below-cells (λ k. if σ k == σ l then 1 else 0) n k l lt h in
      ground (arith, one, two)
