-- ===== src/Builder/PrefixSum/Serial.antt =====
-- The serial prefix sum of src/builder.h.
use shared_gapbs.Base.{
  ℕ, suc, ◌+◌, ◌≤◌, ◌<◌, ◌≡◌, refl, ◌⊎◌, arith, Array, for_range, for_range_inv, sum_below,
  lt_suc_cases,
}
use shared_gapbs.PVector.{PVector, new, get}
use shared_gapbs.Builder.PrefixSum.{Running, prefix_step, prefix_sum}

-- Before round `k` of a loop that began at `i` with the sum below `i`.
pub record IsPrefix (degrees : PVector ℕ) (before : Array ℕ) (i k : ℕ) (s : Running) : Type 0 where
  pub total : s.total ≡ sum_below degrees.cells k
  pub filled : (j : ℕ) → i ≤ j → j < k → s.sums.cells j ≡ sum_below degrees.cells j
  pub others : (j : ℕ) → (j < i) ⊎ (k ≤ j) → s.sums.cells j ≡ before j

prefix_step-IsPrefix :
    (degrees : PVector ℕ) (before : Array ℕ) (i k : ℕ) (s : Running)
    → i ≤ k
    → IsPrefix degrees before i k s
    → IsPrefix degrees before i (suc k) (prefix_step degrees k s)
unfolding prefix_step
prefix_step-IsPrefix degrees before i k s le p = record {
  total = omega (arith, p.total);
  filled = λ j lo hi. ground (arith, lt_suc_cases j k hi, p.filled j, p.total);
  others = λ j h. ground (arith, p.others j);
}

pub for_range-IsPrefix :
    (degrees : PVector ℕ) (i rounds stop : ℕ) (s : Running)
    → i + rounds ≡ stop
    → s.total ≡ sum_below degrees.cells i
    → IsPrefix degrees s.sums.cells i stop (for_range rounds i (prefix_step degrees) s)
for_range-IsPrefix degrees i rounds stop s e t =
    for_range_inv (IsPrefix degrees s.sums.cells i) stop (prefix_step degrees) rounds i s e
      (λ k u lo hi p. prefix_step-IsPrefix degrees s.sums.cells i k u lo p)
      (record { total = t; filled = λ j lo hi. absurd (omega arith); others = λ j h. refl })

-- Entry `j` of the result is the sum of the first `j` entries, the last entry the sum of all.
pub prefix_sum-sum_below :
    (fresh : Array ℕ) (degrees : PVector ℕ) (j : ℕ)
    → j ≤ degrees.size
    → get (prefix_sum fresh degrees) j ≡ sum_below degrees.cells j
unfolding prefix_sum
prefix_sum-sum_below fresh degrees j h =
    let start : Running = record { sums = new fresh (degrees.size + 1); total = 0 } in
    let p = for_range-IsPrefix degrees 0 degrees.size degrees.size start (omega arith) refl in
    ground (arith, p.total, p.filled j)
