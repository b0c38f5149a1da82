-- ===== src/Builder/PrefixSum.antt =====
-- PrefixSum and ParallelPrefixSum of src/builder.h. The parallel loops are run in order of their
-- index; each writes cells that no other round of the same loop reads or writes.
pub mod Serial
pub mod Blocked
use shared_gapbs.Base.{ℕ, ◌+◌, ◌-◌, ◌*◌, ◌/◌, ◌^◌, min, Array, write, for_range}
use shared_gapbs.PVector.{PVector, new, get, put}

-- The vector that is filled, with the running total.
pub record Running : Type 0 where
  pub sums : PVector ℕ
  pub total : ℕ

-- `sums[n] = total; total += degrees[n];`
pub prefix_step : PVector ℕ → ℕ → Running → Running
prefix_step degrees n s = record { sums = put s.sums n s.total; total = s.total + get degrees n }

-- `fresh` is what the allocated memory held.
pub prefix_sum : Array ℕ → PVector ℕ → PVector ℕ
unfolding prefix_step
prefix_sum fresh degrees =
    let start : Running = record { sums = new fresh (degrees.size + 1); total = 0 } in
    let s = for_range degrees.size 0 (prefix_step degrees) start in put s.sums degrees.size s.total

pub block_size : ℕ
block_size = 2 ^ 20

-- `block_size` is a parameter of what follows.
module _ (block_size : ℕ) (degrees : PVector ℕ) where
  pub num_blocks : ℕ
  num_blocks = (degrees.size + block_size - 1) / block_size

  pub block_end : ℕ → ℕ
  block_end block = min ((block + 1) * block_size) degrees.size

  -- The inner loops of both parallel loops run from `block * block_size` to `block_end`.
  pub rounds : ℕ → ℕ
  unfolding block_end
  rounds block = block_end block - block * block_size

  pub local_sum : ℕ → ℕ
  unfolding rounds
  local_sum block = for_range (rounds block) (block * block_size) (λ i lsum. lsum + get degrees i) 0

  pub local_sums : Array ℕ → PVector ℕ
  unfolding num_blocks local_sum
  local_sums fresh =
      for_range num_blocks 0 (λ block v. put v block (local_sum block)) (new fresh num_blocks)

  pub fill_block : PVector ℕ → ℕ → PVector ℕ → PVector ℕ
  unfolding rounds prefix_step
  fill_block bulk_prefix block prefix =
      (for_range (rounds block) (block * block_size) (prefix_step degrees)
        (record { sums = prefix; total = get bulk_prefix block })).sums

  -- The serial loop that fills `bulk_prefix` is the one of `prefix_sum`, over the local sums.
  pub blocked_prefix_sum : Array ℕ → Array ℕ → Array ℕ → PVector ℕ
  unfolding num_blocks local_sums fill_block prefix_sum
  blocked_prefix_sum fresh_sums fresh_bulk fresh =
      let bulk_prefix = prefix_sum fresh_bulk (local_sums fresh_sums) in
      let prefix = for_range num_blocks 0 (fill_block bulk_prefix) (new fresh (degrees.size + 1)) in
      put prefix degrees.size (get bulk_prefix num_blocks)

pub parallel_prefix_sum : Array ℕ → Array ℕ → Array ℕ → PVector ℕ → PVector ℕ
unfolding blocked_prefix_sum block_size
parallel_prefix_sum fresh_sums fresh_bulk fresh degrees =
    blocked_prefix_sum block_size degrees fresh_sums fresh_bulk fresh
