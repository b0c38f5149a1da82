-- ===== src/Builder/PrefixSum/Blocked.antt =====
-- The blocked prefix sum of src/builder.h computes the serial one.
use native.Mathlib.Nat.{le-div_iff_mul-le, lt-div-mul-add}
use shared_gapbs.Base.{
  ℕ, zero, suc, ◌+◌, ◌-◌, ◌*◌, ◌≤◌, ◌<◌, min, ◌≡◌, refl, ap, ◌∙◌, sym, inl, inr, arith, Array,
  for_range_inv, sum_below, lt_suc_cases, lt_or_le,
}
use shared_gapbs.PVector.{PVector, new, get, put}
use shared_gapbs.Builder.PrefixSum.{
  Running, prefix_step, prefix_sum, num_blocks, block_end, rounds, local_sum, local_sums,
  fill_block, blocked_prefix_sum, parallel_prefix_sum, block_size,
}
use shared_gapbs.Builder.PrefixSum.Serial.{for_range-IsPrefix, prefix_sum-sum_below}

module _ (b : ℕ) (degrees : PVector ℕ) (pos : 0 < b) where
  abbrev before : ℕ → ℕ
  before = sum_below degrees.cells

  -- Every block begins inside the vector, and the blocks cover it.
  block_starts : (k : ℕ) → k < num_blocks b degrees → k * b < degrees.size
  unfolding num_blocks
  block_starts k h =
      let room : suc k * b ≤ degrees.size + b - 1 = (le-div_iff_mul-le pos).0 h in
      omega (arith, room)

  blocks_cover : degrees.size ≤ num_blocks b degrees * b
  unfolding num_blocks
  blocks_cover = omega (arith, lt-div-mul-add {a = degrees.size + b - 1} pos)

  local_sum_lem :
      (k : ℕ)
      → k * b ≤ degrees.size
      → local_sum b degrees k + before (k * b) ≡ before (block_end b degrees k)
  unfolding local_sum rounds block_end
  local_sum_lem k h =
      for_range_inv (λ i lsum. lsum + before (k * b) ≡ before i) (min ((k + 1) * b) degrees.size)
        (λ i lsum. lsum + get degrees i) (min ((k + 1) * b) degrees.size - k * b) (k * b) 0
        (omega arith) (λ i lsum lo hi e. omega (arith, e)) (omega arith)

  local_sums_lem :
      (fresh : Array ℕ)
      → ((local_sums b degrees fresh).size ≡ num_blocks b degrees)
        × ((k : ℕ)
            → k < num_blocks b degrees
            → get (local_sums b degrees fresh) k ≡ local_sum b degrees k)
  unfolding local_sums
  local_sums_lem fresh =
      let n = num_blocks b degrees in
      for_range_inv
        (λ i (v : PVector ℕ). (v.size ≡ n) × ((k : ℕ) → k < i → v.cells k ≡ local_sum b degrees k))
        n (λ block v. put v block (local_sum b degrees block)) n 0 (new fresh n) (omega arith)
        (λ i v lo hi p. (p.0, λ k h. ground (arith, lt_suc_cases k i h, p.1 k)))
        (refl, λ k h. absurd (omega arith))

  sum_below-local_sums :
      (fresh : Array ℕ) (k : ℕ)
      → k ≤ num_blocks b degrees
      → sum_below (local_sums b degrees fresh).cells k ≡ before (min (k * b) degrees.size)
  sum_below-local_sums fresh zero h =
      let first : min (0 * b) degrees.size ≡ 0 = omega arith in rw first
  sum_below-local_sums fresh (suc k) h =
      let start = block_starts k (omega arith) in
      let first : min (k * b) degrees.size ≡ k * b = omega arith in
      let last : block_end b degrees k ≡ min (suc k * b) degrees.size = end_lem k in
      omega (
        arith,
        sum_below-local_sums fresh k (omega arith),
        ap before first,
        ap before last,
        (local_sums_lem fresh).1 k (omega arith),
        local_sum_lem k (omega arith),
      )
    where
      end_lem : (k : ℕ) → block_end b degrees k ≡ min (suc k * b) degrees.size
      end_lem k = unfold block_end in omega arith

  bulk_prefix_lem :
      (fresh_sums fresh_bulk : Array ℕ) (k : ℕ)
      → k ≤ num_blocks b degrees
      → get (prefix_sum fresh_bulk (local_sums b degrees fresh_sums)) k
        ≡ before (min (k * b) degrees.size)
  bulk_prefix_lem fresh_sums fresh_bulk k h =
      let size = (local_sums_lem fresh_sums).0 in
      prefix_sum-sum_below fresh_bulk (local_sums b degrees fresh_sums) k (omega (arith, size))
      ∙ sum_below-local_sums fresh_sums k h

  -- One round of the outer loop extends the filled part by its block.
  fill_block_lem :
      (bulk prefix : PVector ℕ) (k : ℕ)
      → k < num_blocks b degrees
      → get bulk k ≡ before (min (k * b) degrees.size)
      → ((j : ℕ) → j < min (k * b) degrees.size → get prefix j ≡ before j)
      → (j : ℕ) → j < min (suc k * b) degrees.size
      → get (fill_block b degrees bulk k prefix) j ≡ before j
  unfolding fill_block rounds block_end
  fill_block_lem bulk prefix k h e filled j lt =
      let start = block_starts k h in
      let first : min (k * b) degrees.size ≡ k * b = omega arith in
      let p =
        for_range-IsPrefix degrees (k * b) (min ((k + 1) * b) degrees.size - k * b)
          (min ((k + 1) * b) degrees.size) (record { sums = prefix; total = get bulk k })
          (omega arith) (e ∙ ap before first) in
      elim (lt_or_le j (k * b)) [
        | inl below ↦ p.others j (inl below) ∙ filled j (omega arith)
        | inr above ↦ p.filled j above (omega arith)
      ]

  -- The blocked algorithm computes the serial prefix sums, whatever the block size.
  pub blocked_prefix_sum-sum_below :
      (fresh_sums fresh_bulk fresh : Array ℕ) (j : ℕ)
      → j ≤ degrees.size
      → get (blocked_prefix_sum b degrees fresh_sums fresh_bulk fresh) j ≡ before j
  unfolding blocked_prefix_sum
  blocked_prefix_sum-sum_below fresh_sums fresh_bulk fresh j h =
      let n = num_blocks b degrees in
      let bulk = prefix_sum fresh_bulk (local_sums b degrees fresh_sums) in
      let loop =
        for_range_inv
          (λ k (v : PVector ℕ). (j : ℕ) → j < min (k * b) degrees.size → get v j ≡ before j) n
          (fill_block b degrees bulk) n 0 (new fresh (degrees.size + 1)) (omega arith)
          (λ k v lo hi p.
            fill_block_lem bulk v k hi (bulk_prefix_lem fresh_sums fresh_bulk k (omega arith)) p)
          (λ i lt. absurd (omega arith)) in
      let whole : min (n * b) degrees.size ≡ degrees.size = omega (arith, blocks_cover) in
      ground (arith, blocks_cover, loop j, bulk_prefix_lem fresh_sums fresh_bulk n, ap before whole)

pub parallel_prefix_sum-sum_below :
    (fresh_sums fresh_bulk fresh : Array ℕ) (degrees : PVector ℕ) (j : ℕ)
    → j ≤ degrees.size
    → get (parallel_prefix_sum fresh_sums fresh_bulk fresh degrees) j ≡ sum_below degrees.cells j
unfolding parallel_prefix_sum
parallel_prefix_sum-sum_below fresh_sums fresh_bulk fresh degrees j h =
    blocked_prefix_sum-sum_below block_size degrees (omega arith) fresh_sums fresh_bulk fresh j h

-- The parallel prefix sum equals the serial one at every index up to the size.
pub parallel_prefix_sum-prefix_sum :
    (fresh_sums fresh_bulk fresh fresh' : Array ℕ) (degrees : PVector ℕ) (j : ℕ)
    → j ≤ degrees.size
    → get (parallel_prefix_sum fresh_sums fresh_bulk fresh degrees) j
      ≡ get (prefix_sum fresh' degrees) j
parallel_prefix_sum-prefix_sum fresh_sums fresh_bulk fresh fresh' degrees j h =
    parallel_prefix_sum-sum_below fresh_sums fresh_bulk fresh degrees j h
    ∙ sym (prefix_sum-sum_below fresh' degrees j h)

-- The result has one entry more than there are degrees.
pub size-parallel_prefix_sum :
    (fresh_sums fresh_bulk fresh : Array ℕ) (degrees : PVector ℕ)
    → (parallel_prefix_sum fresh_sums fresh_bulk fresh degrees).size ≡ degrees.size + 1
unfolding parallel_prefix_sum blocked_prefix_sum
size-parallel_prefix_sum fresh_sums fresh_bulk fresh degrees =
    for_range_inv (λ k (v : PVector ℕ). v.size ≡ degrees.size + 1) n
      (fill_block block_size degrees bulk) n 0 (new fresh (degrees.size + 1)) (omega arith)
      (λ k v lo hi e. size-fill_block k v ∙ e) refl
  where
    n : ℕ
    n = num_blocks block_size degrees

    bulk : PVector ℕ
    bulk = prefix_sum fresh_bulk (local_sums block_size degrees fresh_sums)

    size-fill_block :
        (k : ℕ) (v : PVector ℕ) → (fill_block block_size degrees bulk k v).size ≡ v.size
    size-fill_block k v =
        for_range_inv (λ i (s : Running). s.sums.size ≡ v.size)
          (k * block_size + rounds block_size degrees k) (prefix_step degrees)
          (rounds block_size degrees k) (k * block_size) (record { sums = v; total = get bulk k })
          refl (λ i s lo hi e. e) refl
