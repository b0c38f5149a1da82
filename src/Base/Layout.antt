-- ===== src/Base/Layout.antt =====
-- Rows laid out one after the other in a block of memory.
use Prim.Native.Nat.{ℕ, zero, suc, ◌+◌, ◌≤◌, ◌<◌}
use mathlib.Core.Path.{◌≡◌, refl, sym, subst, ◌∙◌}
use mathlib.Core.Logic.{◌⊎◌, inl, inr}
use mathlib.Core.List.{List}
use native.Mathlib.Omega.{arith}
use shared_gapbs.Base.Tests.{lt_suc_cases}
use shared_gapbs.Base.Lists.{length}
use shared_gapbs.Base.Blocks.{Array, write_all, write_all_frame, slice, slice-ext, slice-write_all}

module _ {ℓ} {A : Type ℓ} (n : ℕ) (at : ℕ → ℕ) (rows : ℕ → List A)
    (step : (v : ℕ) → v < n → at v + length (rows v) ≡ at (suc v)) where
  pub at_mono : (v w : ℕ) → v ≤ w → w ≤ n → at v ≤ at w
  at_mono v zero h k = let e : v ≡ 0 = omega arith in subst (λ u. at v ≤ at u) e (omega arith)
  at_mono v (suc w) h k = elim (lt_suc_cases v (suc w) (omega arith)) [
    | inl lt ↦ omega (arith, at_mono v w (omega arith) (omega arith), step w (omega arith))
    | inr e ↦ subst (λ u. at v ≤ at u) e (omega arith)
  ]

  -- The first `k` rows are in place, and the other cells are as in `before`.
  pub record Laid (before : Array A) (k : ℕ) (m : Array A) : Type ℓ where
    pub laid : (v : ℕ) → v < k → slice m (at v) (length (rows v)) ≡ rows v
    pub frame : (p : ℕ) → (p < at 0) ⊎ (at k ≤ p) → m p ≡ before p

  pub Laid-start : (before : Array A) → Laid before 0 before
  Laid-start before = record { laid = λ v h. absurd (omega arith); frame = λ p h. refl }

  pub Laid-write_all :
      (before : Array A) (k : ℕ) (m : Array A)
      → k < n
      → Laid before k m
      → Laid before (suc k) (write_all m (at k) (rows k))
  Laid-write_all before k m lt r = record {
    laid = λ v h. elim (lt_suc_cases v k h) [
      | inl old ↦
          slice-ext (write_all m (at k) (rows k)) m (at v) (length (rows v)) (λ j lo hi.
            write_all_frame m (at k) (rows k) j (
              inl (
                omega
                  (arith, step v (omega arith), at_mono (suc v) k (omega arith) (omega arith)))))
          ∙ r.laid v old
      | inr e ↦
          subst (λ w. slice (write_all m (at k) (rows k)) (at w) (length (rows w)) ≡ rows w) (sym e)
            (slice-write_all m (at k) (rows k))
    ];
    frame = λ p h. write_all_frame m (at k) (rows k) p (outside p h) ∙ r.frame p (beyond p h);
  }
    where
      outside : (p : ℕ) → (p < at 0) ⊎ (at (suc k) ≤ p) → (p < at k) ⊎ (at k + length (rows k) ≤ p)
      outside p h = omega (arith, step k lt, at_mono 0 k (omega arith) (omega arith))

      beyond : (p : ℕ) → (p < at 0) ⊎ (at (suc k) ≤ p) → (p < at 0) ⊎ (at k ≤ p)
      beyond p h = omega (arith, step k lt)
