-- ===== src/Builder/Squish.antt =====
-- SquishCSR of src/builder.h: sorted neighbourhoods without duplicates and self-loops.
pub mod Rows
pub mod Copies
pub mod Correct
use shared_gapbs.Base.{
  ℕ, ◌+◌, ◌-◌, Bool, Array, write_all, slice, List, length, if◌then◌else◌, for_range, Option, none,
  some, Run, done, aborted,
}
use shared_gapbs.PVector.{PVector, new, get, put}
use shared_gapbs.Graph.{CsrGraph, gen_index}
use shared_gapbs.Stl.{sort, squish}
use shared_gapbs.Builder.PrefixSum.{parallel_prefix_sum}

pub record Fresh : Type 0 where
  pub diffs : Array ℕ
  pub local_sums : Array ℕ
  pub bulk_prefix : Array ℕ
  pub offsets : Array ℕ
  pub neighs : Array ℕ
  pub index : Array ℕ

-- The neighbours of the graph that is squished, which are sorted in place, and `diffs`.
pub record Squishing : Type 0 where
  pub cells : Array ℕ
  pub diffs : PVector ℕ

-- The body of the first loop. `std::unique` and `std::remove` move the kept elements to the front
-- of the range; the cells behind them are not read again.
unfoldable pub squish_row : Array ℕ → ℕ → Squishing → Squishing
squish_row index n s =
    let n_start = index n in
    let row = slice s.cells n_start (index (n + 1) - n_start) in
    let kept = squish n row in
    record {
      cells = write_all (write_all s.cells n_start (sort row)) n_start kept;
      diffs = put s.diffs n (length kept);
    }

-- `std::copy(n_start, n_start + diffs[n], sq_index[n])`
unfoldable pub copy_row : Array ℕ → Squishing → Array ℕ → ℕ → Array ℕ → Array ℕ
copy_row index s sq_index n sq_neighs =
    write_all sq_neighs (sq_index n) (slice s.cells (index n) (get s.diffs n))

pub record Squished : Type 0 where
  pub sq_index : Array ℕ
  pub sq_neighs : Array ℕ
  pub neighs_x : ℕ

pub squish_rows : Fresh → Array ℕ → Array ℕ → ℕ → Squishing
unfolding squish_row
squish_rows fresh index cells num_nodes =
    for_range num_nodes 0 (squish_row index)
      (record { cells = cells; diffs = new fresh.diffs num_nodes })

pub sq_offsets : Fresh → PVector ℕ → PVector ℕ
sq_offsets fresh diffs = parallel_prefix_sum fresh.local_sums fresh.bulk_prefix fresh.offsets diffs

pub squish_cells : Fresh → Array ℕ → Array ℕ → ℕ → Squished
unfolding squish_rows sq_offsets copy_row gen_index
squish_cells fresh index cells num_nodes =
    let s = squish_rows fresh index cells num_nodes in
    let offsets = sq_offsets fresh s.diffs in
    let sq_index = gen_index fresh.index offsets 0 in
    record {
      sq_index = sq_index;
      sq_neighs = for_range num_nodes 0 (copy_row index s sq_index) fresh.neighs;
      neighs_x = get offsets num_nodes;
    }

-- The member `index_x` must have been set; `none` is SIZE_MAX.
unfoldable pub squish_csr : Fresh → CsrGraph → Bool → Option ℕ → Run Squished
unfolding squish_cells
squish_csr fresh g transpose none = aborted
squish_csr fresh g transpose (some index_x) = done (
    if transpose
    then squish_cells fresh g.in_index g.in_cells g.num_nodes
    else squish_cells fresh g.out_index g.out_cells g.num_nodes)
